-- ===== src/Output.antt =====
-- src/python/cli/output.py: what handlers write goes through `ctx.out`. A session is the world of
-- the bus and the lines that were written; which sink takes them is not modelled here.
pub mod Sink
use mdioprobe.Bus.{Bus}
use mdioprobe.Exec.{Exec, Result, pure}
use mdioprobe.Prelude.Text.{Text}
use mdioprobe.Prelude.{List, [], ◌∷◌, ◌++◌}

pub record Session (S : Type 0) : Type 0 where
  pub world : S
  pub lines : List Text

module _ {S : Type 0} where
  abbrev pub returned : {A : Type 0} → List Text → Result A × S → Result A × Session S
  returned lines (r, s) = (r, record { world = s; lines = lines })

  -- An action on the world, as part of a session.
  abbrev pub on_world : {A : Type 0} → Exec S A → Exec (Session S) A
  on_world m c = returned c.lines (m c.world)

  -- `ctx.out.line(text)` at the console.
  abbrev pub line : Text → Exec (Session S) (Unit {0})
  line text c = pure tt (record c { lines = c.lines ++ (text ∷ []) })

  abbrev pub in_session : {I : Type 0} → Bus I S → Bus I (Session S)
  in_session bus = record {
    read = λ i. on_world (bus.read i);
    write = λ i v. on_world (bus.write i v);
  }
