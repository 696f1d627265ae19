-- ===== src/Exec/Held.antt =====
-- The list of the processes that are running.
use project_veil.Prelude.{
  ℕ, ◌≡◌, refl, Bool, false, ◌||◌, List, [], ◌∷◌, ◌++◌, arith, ◌==◌, if◌then◌else◌,
}
use project_veil.Exec.{without}

unfoldable pub mem : ℕ → List ℕ → Bool
mem h [] = false
mem h (k ∷ ks) = h == k || mem h ks

pub mem-append : (h : ℕ) (ks ls : List ℕ) → mem h (ks ++ ls) ≡ (mem h ks || mem h ls)
unfolding mem
mem-append h [] ls = refl
mem-append h (k ∷ ks) ls = ground (arith, mem-append h ks ls)

pub mem-without :
    (h p : ℕ) (ks : List ℕ) → mem h (without p ks) ≡ (if h == p then false else mem h ks)
unfolding mem without
mem-without h p [] = ground arith
mem-without h p (k ∷ ks) = ground (arith, mem-without h p ks)
