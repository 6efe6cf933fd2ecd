-- ===== src/Tests/Helpers.antt =====
-- Two helpers on the volume: one that registers two commands, and one that throws after the first.
use mdioprobe.Exec.{Exec, ok, err, defect}
use mdioprobe.Extend.Undo.{unload-load, load-raises}
use mdioprobe.Extend.{Session, unload, load, keys}
use mdioprobe.MvPort.Verbs.{is_one_of}
use mdioprobe.Prelude.Text.{Text, text_eq, codes}
use mdioprobe.Prelude.{false, none, ℕ, not, ◌&&◌, List, [], ◌∷◌, ◌≡◌, refl, if◌then◌else◌}
use mdioprobe.Registry.Order.{IsInOrder}
use mdioprobe.Registry.{get, command}

abbrev Probe : Type 0
Probe = Session ℕ (Unit {0})

abbrev with_command : Text → Probe → Probe
with_command name s = record s { commands = command name (codes "ext") [] [] [] 1 s.commands }

-- `__import__`
abbrev importing : Text → Exec Probe (Unit {0})
importing name s =
    if text_eq name (codes "leds")
    then (ok tt, with_command (codes "blink") (with_command (codes "adjust") s))
    else (err (defect (codes "SyntaxError")), with_command (codes "half") s)

abbrev idle : Probe
idle = record {
  commands = command (codes "read") (codes "mdio") [] [] [] 0 [];
  loaded = [];
  modules = [];
  world = tt;
}

abbrev lit : Probe
lit = with_command (codes "blink") (with_command (codes "adjust") idle)

load_runs :
    ((load importing (codes "leds") idle).0 ≡ ok (codes "adjust" ∷ codes "blink" ∷ []))
    × (keys ((load importing (codes "oops") lit).1.commands)
        ≡ codes "read" ∷ codes "adjust" ∷ codes "blink" ∷ [])
unfolding load unload command
load_runs = (refl, refl)

unload-idle : (unload (codes "leds") idle).1 ≡ idle
unfolding unload
unload-idle = refl

unload-lit : (unload (codes "oops") lit).1 ≡ lit
unfolding unload
unload-lit = refl

unload-load_example :
    (added : List Text) × (u : Probe) × (load importing (codes "leds") idle ≡ (ok added, u))
    × IsInOrder added
    × ((k : Text)
        → is_one_of k added ≡ (
            is_one_of k (keys lit.commands)
            && not (is_one_of k (keys (unload (codes "leds") idle).1.commands))))
    × ((unload (codes "leds") u).0 ≡ ok added)
    × ((k : Text)
        → get k (unload (codes "leds") u).1.commands ≡ (
            if is_one_of k (keys (unload (codes "leds") idle).1.commands)
            then get k lit.commands
            else none))
    × (is_one_of (codes "leds") (keys (unload (codes "leds") u).1.loaded) ≡ false)
    × (is_one_of (codes "leds") (unload (codes "leds") u).1.modules ≡ false)
unload-load_example = unload-load importing (codes "leds") idle lit (rw unload-idle refl)

load-raises_example :
    (u : Probe) × (load importing (codes "oops") lit ≡ (err (defect (codes "SyntaxError")), u))
    × (u.loaded ≡ [])
    × (is_one_of (codes "oops") (keys u.loaded) ≡ false)
    × (is_one_of (codes "oops") u.modules ≡ false)
    × ((k : Text)
        → get k u.commands ≡ (
            if is_one_of k (keys (unload (codes "oops") lit).1.commands)
            then get k (with_command (codes "half") lit).commands
            else none))
load-raises_example =
    load-raises importing (codes "oops") lit (defect (codes "SyntaxError"))
      (with_command (codes "half") lit) (λ e. cc) (λ e. cc) (rw unload-lit refl)
      (rw unload-lit refl)
