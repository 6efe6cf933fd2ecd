-- ===== src/Transport.antt =====
-- src/python/cli/transport.py: the one place that calls the builtin `mdioprobe` module, and the
-- trace of every bus transaction. The firmware and the wire behind it are a parameter, `Host`.
pub mod Laws
use mdioprobe.Bus.{Bus}
use mdioprobe.Exec.{Exec, Result, pure, continue, ◌>>=◌, ◌>>◌, on_os_error}
use mdioprobe.Prelude.{ℕ, Bool, List, [], ◌∷◌, ◌++◌, if◌then◌else◌}

-- The builtin functions the layers above reach, over a state `D` of firmware and target.
pub record Host (D : Type 0) : Type 0 where
  pub c22_read : ℕ → ℕ → Exec D ℕ
  pub c22_write : ℕ → ℕ → ℕ → Exec D (Unit {0})
  pub sleep_ms : ℕ → D → D

-- What one `print` of the trace shows.
pub data TraceLine : Type 0 where
  reading : ℕ → ℕ → TraceLine
  no_answer : TraceLine
  answered : ℕ → TraceLine
  writing : ℕ → ℕ → ℕ → TraceLine

-- `_trace` of the module, what it printed, and the world outside.
pub record World (D : Type 0) : Type 0 where
  pub device : D
  pub trace : Bool
  pub printed : List TraceLine

module _ {D : Type 0} where
  unfoldable pub set_trace : Bool → Exec (World D) (Unit {0})
  set_trace on w = pure tt (record w { trace = on })

  unfoldable pub tracing : Exec (World D) Bool
  tracing w = pure w.trace w

  -- A call of the builtin module.
  abbrev finish : {A : Type 0} → World D → Result A × D → Result A × World D
  finish w (r, d) = (r, record w { device = d })

  abbrev pub call : {A : Type 0} → Exec D A → Exec (World D) A
  call m w = finish w (m w.device)

  -- `if _trace: print(...)`
  abbrev pub show_trace : TraceLine → Exec (World D) (Unit {0})
  show_trace l w = pure tt (if w.trace then record w { printed = w.printed ++ (l ∷ []) } else w)

module _ {D : Type 0} (host : Host D) where
  unfoldable pub read : ℕ → ℕ → Exec (World D) ℕ
  read phy reg = do
    show_trace (reading phy reg)
    value ← on_os_error (call (host.c22_read phy reg)) (show_trace no_answer)
    show_trace (answered value)
    pure value

  unfoldable pub write : ℕ → ℕ → ℕ → Exec (World D) (Unit {0})
  write phy reg value = do show_trace (writing phy reg value); call (host.c22_write phy reg value)

  -- `time.sleep_ms(ms)`
  abbrev pub sleep_ms : ℕ → Exec (World D) (Unit {0})
  sleep_ms ms w = pure tt (record w { device = host.sleep_ms ms w.device })

  -- The module as an object with the two functions, addressed by PHY and register.
  abbrev pub wire : Bus (ℕ × ℕ) (World D)
  wire = record { read = λ a. read a.0 a.1; write = λ a v. write a.0 a.1 v }
