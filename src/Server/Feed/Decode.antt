-- ===== src/Server/Feed/Decode.antt =====
-- Decoding the rows of the feed in parts (api.rs: `changes`).
use helium_sync.Prelude.{
  ℕ, zero, suc, ◌≤◌, ◌≡◌, refl, List, [], ◌∷◌, ok, arith, take, drop, Result, ◌>>=◌, ltb,
  Bool-cases, inl, inr, All,
}
use helium_sync.Prelude.Fallible
use helium_sync.Server.Errors.{ApiError}
use helium_sync.Server.Devices.{collect}
use helium_sync.Server.Tables.{ChangeRow}
use helium_sync.Server.Feed.{rows_after}
use helium_sync.Server.Feed.Rows.{end_of}
use helium_sync.Server.History.Order.{Ascending, Ascending-le}

module _ {A B : Type 0} (f : A → Result ApiError B) where
  collect_inv :
      (x : A) (xs : List A) (ys : List B)
      → collect f (x ∷ xs) ≡ ok ys
      → (z : B) × (zs : List B) × (f x ≡ ok z) × (collect f xs ≡ ok zs) × (ys ≡ z ∷ zs)
  unfolding collect
  collect_inv x xs ys h =
      let (z, p, q) = Fallible.>>=-eq-ok (f x) (λ y. collect f xs >>= λ zs. ok (y ∷ zs)) h in
      let (zs, p', q') = Fallible.>>=-eq-ok (collect f xs) (λ zs. ok (z ∷ zs)) q in
      (z, zs, p, p', ground arith)

  pub collect-take :
      (n : ℕ) (xs : List A) (ys : List B)
      → collect f xs ≡ ok ys
      → collect f (take n xs) ≡ ok (take n ys)
  unfolding collect
  collect-take zero xs ys h = refl
  collect-take (suc n) [] ys h = let e : ys ≡ [] = ground arith in rw e
  collect-take (suc n) (x ∷ xs) ys h =
      let (z, zs, p, q, e) = collect_inv x xs ys h in rw (e, p, collect-take n xs zs q)

  pub collect-drop :
      (n : ℕ) (xs : List A) (ys : List B)
      → collect f xs ≡ ok ys
      → collect f (drop n xs) ≡ ok (drop n ys)
  unfolding collect
  collect-drop zero xs ys h = h
  collect-drop (suc n) [] ys h = let e : ys ≡ [] = ground arith in rw e
  collect-drop (suc n) (x ∷ xs) ys h =
      let (z, zs, p, q, e) = collect_inv x xs ys h in rw e (collect-drop n xs zs q)

abbrev pub Bounded : ℕ → List ChangeRow → Type 0
Bounded hi xs = All (λ (x : ChangeRow). x.cursor ≤ hi) xs

pub Bounded-mono : (mid hi : ℕ) (xs : List ChangeRow) → mid ≤ hi → Bounded mid xs → Bounded hi xs
Bounded-mono mid hi [] h b = tt
Bounded-mono mid hi (x ∷ xs) h b = (omega arith, Bounded-mono mid hi xs h b.1)

pub Ascending-Bounded : (lo : ℕ) (xs : List ChangeRow) (hi : ℕ) → Ascending lo xs hi → Bounded hi xs
Ascending-Bounded lo [] hi a = tt
Ascending-Bounded lo (x ∷ xs) hi a =
    (Ascending-le x.cursor xs hi a.1, Ascending-Bounded x.cursor xs hi a.1)

pub rows_after-Bounded :
    (hi after : ℕ) (xs : List ChangeRow) → Bounded hi xs → Bounded hi (rows_after after xs)
unfolding rows_after
rows_after-Bounded hi after [] b = tt
rows_after-Bounded hi after (x ∷ xs) b = elim (Bool-cases (ltb after x.cursor)) [
  | inl e ↦ rw e (b.0, rows_after-Bounded hi after xs b.1)
  | inr e ↦ rw e (rows_after-Bounded hi after xs b.1)
]

pub end_of-Bounded :
    (hi after n : ℕ) (xs : List ChangeRow)
    → after ≤ hi
    → Bounded hi xs
    → end_of after (take n xs) ≤ hi
end_of-Bounded hi after zero xs h b = h
end_of-Bounded hi after (suc n) [] h b = h
end_of-Bounded hi after (suc n) (x ∷ xs) h b = end_of-Bounded hi x.cursor n xs b.0 b.1
