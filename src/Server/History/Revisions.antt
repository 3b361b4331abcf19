-- ===== src/Server/History/Revisions.antt =====
-- The revisions of one object along the change feed.
use helium_sync.Prelude.{ℕ, suc, ◌≡◌, pos, true, false, String, List, [], ◌∷◌, ◌++◌, str_eq}
use helium_sync.Server.Tables.{ChangeRow}

-- `Counted key n xs m`: the changes of `key` in `xs` have the revisions n + 1, n + 2, …, m, in this
-- order.
pub data Counted (key : String) : ℕ → List ChangeRow → ℕ → Type 0 where
  done : {n : ℕ} → Counted key n [] n
  own :
      {n m : ℕ} {x : ChangeRow} {xs : List ChangeRow}
      → str_eq x.object_id key ≡ true
      → x.revision ≡ pos (suc n)
      → Counted key (suc n) xs m
      → Counted key n (x ∷ xs) m
  other :
      {n m : ℕ} {x : ChangeRow} {xs : List ChangeRow}
      → str_eq x.object_id key ≡ false
      → Counted key n xs m
      → Counted key n (x ∷ xs) m

pub Counted-append_own :
    {key : String} {n m : ℕ} {xs : List ChangeRow} (x : ChangeRow)
    → str_eq x.object_id key ≡ true
    → x.revision ≡ pos (suc m)
    → Counted key n xs m
    → Counted key n (xs ++ x ∷ []) (suc m)
Counted-append_own x e r done = own e r done
Counted-append_own x e r (own a b c) = own a b (Counted-append_own x e r c)
Counted-append_own x e r (other a c) = other a (Counted-append_own x e r c)

pub Counted-append_other :
    {key : String} {n m : ℕ} {xs : List ChangeRow} (x : ChangeRow)
    → str_eq x.object_id key ≡ false
    → Counted key n xs m
    → Counted key n (xs ++ x ∷ []) m
Counted-append_other x e done = other e done
Counted-append_other x e (own a b c) = own a b (Counted-append_other x e c)
Counted-append_other x e (other a c) = other a (Counted-append_other x e c)
