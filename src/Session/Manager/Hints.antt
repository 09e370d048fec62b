-- ===== src/Session/Manager/Hints.antt =====
-- The comparison of a hint with the identifier of a session.
use mlink.Prelude.{ℕ, ◌≡◌, ◌↔◌, refl, arith, ==_iff, List, [], ◌∷◌, true}
use mlink.Session.Manager.{bytes_eq}

pub bytes_eq_iff : (a b : List ℕ) → (bytes_eq a b ≡ true) ↔ (a ≡ b)
bytes_eq_iff [] [] = (λ e. refl, λ e. refl)
bytes_eq_iff [] (b ∷ bs) = (λ e. cc, λ e. cc)
bytes_eq_iff (a ∷ as') [] = (λ e. cc, λ e. cc)
bytes_eq_iff (a ∷ as') (b ∷ bs) = ground (arith, bytes_eq_iff as' bs, ==_iff a b)
