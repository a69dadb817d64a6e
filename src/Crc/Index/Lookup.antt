-- ===== src/Crc/Index/Lookup.antt =====
-- What `FindIndex` finds.
use smoo_bazel.Base.{
  ℕ, zero, suc, ◌+◌, ◌<◌, ◌≡◌, refl, sym, ap, ◌∙◌, subst, ◌⊎◌, inl, inr, Bool, true, ◌&&◌, some,
  List, [], ◌∷◌, arith, ltb, ◌==◌, if◌then◌else◌, ltb→lt, lt→ltb, Bool-cases, if_intro, some_inj,
  and_split, get_elem?, Str, pos, negsuc,
}
use smoo_bazel.Crc.{hash_str}
use smoo_bazel.Crc.Index.{
  Row, rows_from, insert_row, sort_rows, hash_array, lower_bound, index_at, find_index,
}

-- Do the hashes of the rows grow strictly?
ascending_from : ℕ → List Row → Bool
ascending_from h [] = true
ascending_from h (x ∷ xs) = ltb h x.0 && ascending_from x.0 xs

unfoldable pub ascending : List Row → Bool
unfolding ascending_from
ascending [] = true
ascending (x ∷ xs) = ascending_from x.0 xs

-- Is the row one of the list?
abbrev pub Among : Row → List Row → Type 0
Among r [] = ⊥
Among r (x ∷ xs) = (x ≡ r) ⊎ Among r xs

insert_row-here : (r : Row) (xs : List Row) → Among r (insert_row r xs)
unfolding insert_row
insert_row-here r [] = inl refl
insert_row-here r (x ∷ xs) =
    if_intro (Among r) (ltb x.0 r.0) (inr (insert_row-here r xs)) (inl refl)

insert_row-keeps : (p r : Row) (xs : List Row) → Among p xs → Among p (insert_row r xs)
unfolding insert_row
insert_row-keeps p r [] m = inr m
insert_row-keeps p r (x ∷ xs) m =
    if_intro (Among p) (ltb x.0 r.0)
      (elim m [ inl e ↦ inl e | inr n ↦ inr (insert_row-keeps p r xs n) ]) (inr m)

insert_row-Among : (p r : Row) (xs : List Row) → Among p (insert_row r xs) → (r ≡ p) ⊎ Among p xs
unfolding insert_row
insert_row-Among p r [] m = m
insert_row-Among p r (x ∷ xs) m = elim (Bool-cases (ltb x.0 r.0)) [
  | inl less ↦ elim (rw less at m) [
    | inl e ↦ inr (inl e)
    | inr n ↦ elim (insert_row-Among p r xs n) [ inl e ↦ inl e | inr k ↦ inr (inr k) ]
  ]
  | inr more ↦ rw more at m
]

Among-sort_rows : (p : Row) (rs : List Row) → Among p rs → Among p (sort_rows rs)
unfolding sort_rows
Among-sort_rows p [] m = m
Among-sort_rows p (r ∷ rs) (inl e) =
    subst (λ q. Among q (insert_row r (sort_rows rs))) e (insert_row-here r (sort_rows rs))
Among-sort_rows p (r ∷ rs) (inr m) = insert_row-keeps p r (sort_rows rs) (Among-sort_rows p rs m)

sort_rows-Among : (p : Row) (rs : List Row) → Among p (sort_rows rs) → Among p rs
unfolding sort_rows
sort_rows-Among p [] m = m
sort_rows-Among p (r ∷ rs) m = elim (insert_row-Among p r (sort_rows rs) m) [
  | inl e ↦ inl e
  | inr n ↦ inr (sort_rows-Among p rs n)
]

ascending_from-lt :
    (h : ℕ) (p : Row) (xs : List Row) → ascending_from h xs ≡ true → Among p xs → h < p.0
unfolding ascending_from
ascending_from-lt h p [] a m = absurd m
ascending_from-lt h p (x ∷ xs) a (inl e) =
    subst (λ (q : Row). h < q.0) e
      (ltb→lt h x.0 (and_split (ltb h x.0) (ascending_from x.0 xs) a).0)
ascending_from-lt h p (x ∷ xs) a (inr m) =
    let (lt, rest) = and_split (ltb h x.0) (ascending_from x.0 xs) a in
    omega (arith, ltb→lt h x.0 lt, ascending_from-lt x.0 p xs rest m)

-- Where the hashes differ, the search for a hash finds its row.
ascending-index_at :
    (h i : ℕ) (xs : List Row)
    → ascending xs ≡ true
    → Among (h, i) xs
    → index_at h (lower_bound h xs) ≡ pos i
unfolding ascending ascending_from index_at lower_bound
ascending-index_at h i [] a m = absurd m
ascending-index_at h i (x ∷ xs) a (inl e) =
    subst (λ (q : Row). index_at q.0 (if ltb x.0 q.0 then lower_bound q.0 xs else x ∷ xs) ≡ pos q.1)
      e (ground arith)
ascending-index_at h i (x ∷ []) a (inr m) = absurd m
ascending-index_at h i (x ∷ y ∷ ys) a (inr m) =
    rw (lt→ltb x.0 h (ascending_from-lt x.0 (h, i) (y ∷ ys) a m))
      (ascending-index_at h i (y ∷ ys) (and_split (ltb x.0 y.0) (ascending_from y.0 ys) a).1 m)

index_at-Among : (h k : ℕ) (xs : List Row) → index_at h (lower_bound h xs) ≡ pos k → Among (h, k) xs
unfolding index_at lower_bound
index_at-Among h k [] e = cc
index_at-Among h k (x ∷ xs) e = elim (Bool-cases (ltb x.0 h)) [
  | inl less ↦ inr (index_at-Among h k xs (rw less at e))
  | inr more ↦ elim (Bool-cases (x.0 == h)) [
    | inl same ↦ inl (ground arith)
    | inr other ↦ absurd (ground arith)
  ]
]

rows_from-Among :
    (n k : ℕ) (s : Str) (ss : List Str)
    → get_elem? ss k ≡ some s
    → Among (hash_str s, n + k) (rows_from n ss)
unfolding rows_from
rows_from-Among n k s [] e = cc
rows_from-Among n zero s (x ∷ ss) e = inl (ground (arith, ap hash_str (some_inj e)))
rows_from-Among n (suc k) s (x ∷ ss) e = inr (
    subst (λ i. Among (hash_str s, i) (rows_from (n + 1) ss)) (omega arith)
      (rows_from-Among (n + 1) k s ss e))

-- The name that a row stands for.
Among-rows_from :
    (n : ℕ) (p : Row) (ss : List Str)
    → Among p (rows_from n ss)
    → (k : ℕ) × (t : Str) × (p.1 ≡ n + k) × (get_elem? ss k ≡ some t) × (hash_str t ≡ p.0)
unfolding rows_from
Among-rows_from n p [] m = absurd m
Among-rows_from n p (x ∷ ss) (inl e) =
    (0, x, ap (λ (q : Row). q.1) (sym e) ∙ omega arith, refl, ap (λ (q : Row). q.0) e)
Among-rows_from n p (x ∷ ss) (inr m) =
    let (k, t, place, at, hash) = Among-rows_from (n + 1) p ss m in
    (suc k, t, omega (arith, place), at, hash)

-- Where the hashes of the names differ, each name is found at its place.
pub find_index-listed :
    (strs : List Str) (k : ℕ) (s : Str)
    → ascending (hash_array strs) ≡ true
    → get_elem? strs k ≡ some s
    → find_index (hash_array strs) s ≡ pos k
unfolding find_index hash_array
find_index-listed strs k s a e =
    ascending-index_at (hash_str s) k (sort_rows (rows_from 0 strs)) a (
      Among-sort_rows (hash_str s, k) (rows_from 0 strs)
        (subst (λ i. Among (hash_str s, i) (rows_from 0 strs)) (omega arith)
          (rows_from-Among 0 k s strs e)))

-- A place that is found is that of a name with the same hash.
pub find_index-found :
    (strs : List Str) (k : ℕ) (s : Str)
    → find_index (hash_array strs) s ≡ pos k
    → (t : Str) × (get_elem? strs k ≡ some t) × (hash_str t ≡ hash_str s)
unfolding find_index hash_array
find_index-found strs k s e =
    let m = index_at-Among (hash_str s) k (sort_rows (rows_from 0 strs)) e in
    let (i, t, place, at, hash) =
      Among-rows_from 0 (hash_str s, k) strs
        (sort_rows-Among (hash_str s, k) (rows_from 0 strs) m) in
    let same : i ≡ k = omega (arith, place) in
    (t, subst (λ j. get_elem? strs j ≡ some t) same at, hash)

index_at-cases :
    (h : ℕ) (xs : List Row) → (index_at h xs ≡ negsuc 0) ⊎ ((k : ℕ) × (index_at h xs ≡ pos k))
unfolding index_at
index_at-cases h [] = inl refl
index_at-cases h (x ∷ xs) = elim (Bool-cases (x.0 == h)) [
  | inl same ↦ inr (x.1, rw same refl)
  | inr other ↦ inl (rw other refl)
]

-- A search finds a place, or says -1.
pub find_index-cases :
    (rows : List Row) (s : Str)
    → (find_index rows s ≡ negsuc 0) ⊎ ((k : ℕ) × (find_index rows s ≡ pos k))
unfolding find_index
find_index-cases rows s = index_at-cases (hash_str s) (lower_bound (hash_str s) rows)
