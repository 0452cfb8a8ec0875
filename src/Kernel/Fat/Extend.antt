-- ===== src/Kernel/Fat/Extend.antt =====
-- The cluster that `write_to_cluster_chain` of stuos/src/fs_fat.c adds to a chain.
use stuos.Prelude.{
  ℕ, ◌≤◌, ◌<◌, ◌≡◌, ◌≢◌, refl, sym, ◌∙◌, inl, inr, true, arith, List, [], ◌∷◌, ◌++◌, subst, ◌⊎◌,
}
use stuos.Kernel.Fat.{
  Result, done, halted, out_of_fuel, ◌>>=◌, Bytes, Fat16Volume, write_fat, num_clusters,
  find_free_cluster_number, allocate_next, is_end_of_ll_num,
}
use stuos.Kernel.Fat.Table.{
  fat_entry, IsCluster, fat_entry-write_fat, IsFirstFree, find_free_cluster_number-IsFirstFree,
}
use stuos.Kernel.Fat.Clusters.{IsApart}

-- The clusters of the chain from `c` on, to its end.
abbrev pub IsChain : Fat16Volume → Bytes → ℕ → List ℕ → Type 0
IsChain vol d c [] = is_end_of_ll_num c ≡ true
IsChain vol d c (x ∷ xs) = (c ≡ x) × IsCluster x × IsChain vol d (fat_entry vol d x) xs

in_use : (vol : Fat16Volume) (d : Bytes) (c : ℕ) (xs : List ℕ) → IsChain vol d c xs → (c < 2) → ⊥
in_use vol d c [] chain lt = ground arith
in_use vol d c (x ∷ xs) (at_x, valid, chain) lt = omega (arith, at_x, valid, lt)

-- A free cluster is in no chain.
IsChain-IsApart :
    (vol : Fat16Volume) (d : Bytes) (new c : ℕ) (xs : List ℕ)
    → fat_entry vol d new < 2
    → IsChain vol d c xs
    → IsApart new xs
IsChain-IsApart vol d new c [] free chain = tt
IsChain-IsApart vol d new c (x ∷ xs) free (at_x, valid, chain) = (
  λ e. in_use vol d (fat_entry vol d x) xs chain (subst (λ y. fat_entry vol d y < 2) e free),
  IsChain-IsApart vol d new (fat_entry vol d x) xs free chain,
)

-- What `allocate_next` does to the table.
abbrev pub IsExtended : Fat16Volume → Bytes → ℕ → Result (ℕ × Bytes) → Type 0
IsExtended vol d c (done (new, d')) =
    IsCluster new
    × (new < num_clusters vol)
    × (fat_entry vol d new < 2)
    × (fat_entry vol d' c ≡ new)
    × (fat_entry vol d' new ≡ 0xFFF8)
    × ((e : ℕ) → e ≢ c → e ≢ new → fat_entry vol d' e ≡ fat_entry vol d e)
IsExtended vol d c halted = (m : ℕ) → 2 ≤ m → m < num_clusters vol → 2 ≤ fat_entry vol d m
IsExtended vol d c out_of_fuel = ⊥

extended :
    (vol : Fat16Volume) (c : ℕ) (d : Bytes)
    → num_clusters vol ≤ 0xFFF7
    → IsCluster c
    → 2 ≤ fat_entry vol d c
    → (r : Result ℕ) → IsFirstFree vol d 2 (num_clusters vol) r
    → IsExtended vol d c (
        r >>= λ new.
        write_fat vol new 0xFFF8 d >>= λ d'. write_fat vol c new d' >>= λ d''. done (new, d''))
extended vol c d counted valid used (done new) (from, to, free, first) =
    let is_new : IsCluster new = (omega arith, omega (arith, to, counted)) in
    let ne : c ≢ new = λ e. omega (arith, used, subst (λ y. fat_entry vol d y < 2) (sym e) free) in
    let (d', wrote, marked, kept, _) = fat_entry-write_fat vol new 0xFFF8 d is_new (omega arith) in
    let (d'', linked, points, same, _) =
      fat_entry-write_fat vol c new d' valid (omega (arith, to, counted)) in
    rw (wrote, linked)
      (
        is_new,
        to,
        free,
        points,
        same new (λ e. ne (sym e)) ∙ marked,
        λ e other fresh. same e other ∙ kept e fresh,
      )
extended vol c d counted valid used halted none_free = none_free
extended vol c d counted valid used out_of_fuel never = never

allocate_next-IsExtended :
    (vol : Fat16Volume) (c : ℕ) (d : Bytes)
    → num_clusters vol ≤ 0xFFF7
    → IsCluster c
    → 2 ≤ fat_entry vol d c
    → IsExtended vol d c (allocate_next vol c d)
unfolding allocate_next
allocate_next-IsExtended vol c d counted valid used =
    extended vol c d counted valid used (find_free_cluster_number vol d)
      (find_free_cluster_number-IsFirstFree vol d counted)

module _ (vol : Fat16Volume) (d d' : Bytes) (c new : ℕ)
    (extends : IsExtended vol d c (done (new, d'))) where
  -- A chain that the cluster `c` is not in.
  IsChain-other :
      (c₀ : ℕ) (xs : List ℕ)
      → IsChain vol d c₀ xs
      → IsApart c xs
      → IsApart new xs
      → IsChain vol d' c₀ xs
  IsChain-other c₀ [] chain old fresh = chain
  IsChain-other c₀ (x ∷ xs) (at_x, valid, chain) (ne, old) (other, fresh) =
      let entry = extends.5 x (λ e. ne (sym e)) (λ e. other (sym e)) in
      (at_x, valid, rw entry (IsChain-other (fat_entry vol d x) xs chain old fresh))

  IsChain-extended :
      (c₀ : ℕ) (xs : List ℕ)
      → IsChain vol d c₀ (xs ++ c ∷ [])
      → IsApart c xs
      → IsApart new xs
      → IsChain vol d' c₀ (xs ++ c ∷ new ∷ [])
  IsChain-extended c₀ [] (at_c, valid, chain) old fresh =
      (at_c, valid, (extends.3, extends.0, rw extends.4 refl))
  IsChain-extended c₀ (x ∷ xs) (at_x, valid, chain) (ne, old) (other, fresh) =
      let entry = extends.5 x (λ e. ne (sym e)) (λ e. other (sym e)) in
      (at_x, valid, rw entry (IsChain-extended (fat_entry vol d x) xs chain old fresh))

IsApart-append : (new : ℕ) (xs ys : List ℕ) → IsApart new (xs ++ ys) → IsApart new xs
IsApart-append new [] ys apart = tt
IsApart-append new (x ∷ xs) ys (ne, apart) = (ne, IsApart-append new xs ys apart)

abbrev AreChains : Fat16Volume → Bytes → ℕ → Result (ℕ × Bytes) → Type 0
AreChains vol d c r =
    ((new : ℕ) × (d' : Bytes) × (r ≡ done (new, d'))
      × (fat_entry vol d new < 2)
      × (new < num_clusters vol)
      × ((c₀ : ℕ) (xs : List ℕ)
          → IsChain vol d c₀ (xs ++ c ∷ [])
          → IsApart c xs
          → IsChain vol d' c₀ (xs ++ c ∷ new ∷ []))
      × ((c₀ : ℕ) (xs : List ℕ) → IsChain vol d c₀ xs → IsApart c xs → IsChain vol d' c₀ xs))
    ⊎ ((r ≡ halted) × ((m : ℕ) → 2 ≤ m → m < num_clusters vol → 2 ≤ fat_entry vol d m))

by_result :
    (vol : Fat16Volume) (c : ℕ) (d : Bytes) (r : Result (ℕ × Bytes))
    → IsExtended vol d c r
    → AreChains vol d c r
by_result vol c d (done (new, d')) extends =
    let free = extends.2 in
    inl (
      new,
      d',
      refl,
      free,
      extends.1,
      λ c₀ xs chain old.
          IsChain-extended vol d d' c new extends c₀ xs chain old (
            IsApart-append new xs (c ∷ [])
              (IsChain-IsApart vol d new c₀ (xs ++ c ∷ []) free chain)),
      λ c₀ xs chain old.
          IsChain-other vol d d' c new extends c₀ xs chain old
            (IsChain-IsApart vol d new c₀ xs free chain),
    )
by_result vol c d halted none_free = inr (refl, none_free)
by_result vol c d out_of_fuel never = absurd never

-- A chain's last cluster `c` gets a next one: where `allocate_next`, on a volume that counts at
-- most 0xFFF7 clusters, returns `new`, that cluster was free and is counted; the chains that end
-- with `c` end with `new` behind it, and every chain without `c` is as it was. It halts only where
-- no cluster that is counted is free.
pub allocate_next-chains :
    (vol : Fat16Volume) (c : ℕ) (d : Bytes)
    → num_clusters vol ≤ 0xFFF7
    → IsCluster c
    → is_end_of_ll_num (fat_entry vol d c) ≡ true
    → ((new : ℕ) × (d' : Bytes) × (allocate_next vol c d ≡ done (new, d'))
        × (fat_entry vol d new < 2)
        × (new < num_clusters vol)
        × ((c₀ : ℕ) (xs : List ℕ)
            → IsChain vol d c₀ (xs ++ c ∷ [])
            → IsApart c xs
            → IsChain vol d' c₀ (xs ++ c ∷ new ∷ []))
        × ((c₀ : ℕ) (xs : List ℕ) → IsChain vol d c₀ xs → IsApart c xs → IsChain vol d' c₀ xs))
      ⊎ ((allocate_next vol c d ≡ halted)
          × ((m : ℕ) → 2 ≤ m → m < num_clusters vol → 2 ≤ fat_entry vol d m))
allocate_next-chains vol c d counted valid last =
    by_result vol c d (allocate_next vol c d)
      (allocate_next-IsExtended vol c d counted valid (ground arith))
