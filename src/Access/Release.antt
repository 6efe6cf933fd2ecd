-- ===== src/Access/Release.antt =====
-- `ExtPage` on a bus that may fail: when the extension space is left again, and when it is not.
use mdioprobe.Access.{extension, ext_arm, ext_release, ext_page}
use mdioprobe.Bus.{Bus}
use mdioprobe.Exec.{
  Result, ok, err, Exc, os_error, command_error, value_error, interrupt, system_exit, defect,
  continue, lift, pure, recover,
}
use mdioprobe.Prelude.Int.{ℤ, mask_low}
use mdioprobe.Prelude.{ℕ, ◌≡◌, refl, ◌⊎◌, inl, inr}

-- Put back or failed with an errno: what `_release` swallows.
abbrev pub Quiet : Result (Unit {0}) → Type 0
Quiet r = (r ≡ ok tt) ⊎ ((n : ℕ) × (r ≡ err (os_error n)))

module _ {S A : Type 0} (r : Result A) where
  swallowed :
      (w : Result (Unit {0}) × S)
      → Quiet w.0
      → continue (λ _. lift r) (recover (λ _. pure tt) w) ≡ (r, w.1)
  swallowed (ok u, s) q = refl
  swallowed (err (os_error n), s) q = refl
  swallowed (err (command_error m), s) (inl e) = cc
  swallowed (err (command_error m), s) (inr (n, e)) = cc
  swallowed (err (value_error t), s) (inl e) = cc
  swallowed (err (value_error t), s) (inr (n, e)) = cc
  swallowed (err interrupt, s) (inl e) = cc
  swallowed (err system_exit, s) (inl e) = cc
  swallowed (err interrupt, s) (inr (n, e)) = cc
  swallowed (err system_exit, s) (inr (n, e)) = cc
  swallowed (err (defect t), s) (inl e) = cc
  swallowed (err (defect t), s) (inr (n, e)) = cc

module _ {S : Type 0} (bus : Bus ℕ S) (page : ℤ) (s s1 : S) where
  -- Once the arming writes succeed, `ExtPage` writes 0 to 0x1F after the access, whether the
  -- access succeeds or raises, and the access ends as it did before that write. The write itself
  -- may end well or with an `OSError`, which is swallowed.
  pub ext_page_releases :
      (reg value : ℕ)
      → ext_arm bus page s ≡ (ok tt, s1)
      → ((t : S) → Quiet (bus.write 0x1f 0 t).0)
      → ((ext_page bus page).read reg s
          ≡ ((bus.read reg s1).0, (bus.write 0x1f 0 (bus.read reg s1).1).1))
        × ((ext_page bus page).write reg value s
            ≡ ((bus.write reg value s1).0, (bus.write 0x1f 0 (bus.write reg value s1).1).1))
  unfolding ext_page ext_release
  ext_page_releases reg value armed quiet =
      let a = bus.read reg s1 in
      let b = bus.write reg value s1 in
      (
        rw armed (swallowed a.0 (bus.write 0x1f 0 a.1) (quiet a.1)),
        rw armed (swallowed b.0 (bus.write 0x1f 0 b.1) (quiet b.1)),
      )

  -- If the write of 7 to 0x1F succeeds and the write of the page to 0x1E raises, `ExtPage` raises
  -- the same and does nothing more: 0x1F is not put back, in a read as in a write.
  pub ext_page_left_selected :
      (reg value : ℕ) (s2 : S) (e : Exc)
      → bus.write 0x1f extension s ≡ (ok tt, s1)
      → bus.write 0x1e (mask_low 8 page) s1 ≡ (err e, s2)
      → ((ext_page bus page).read reg s ≡ (err e, s2))
        × ((ext_page bus page).write reg value s ≡ (err e, s2))
  unfolding ext_page ext_arm
  ext_page_left_selected reg value s2 e first second = (rw (first, second), rw (first, second))
