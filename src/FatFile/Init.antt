-- ===== src/FatFile/Init.antt =====
-- fs/fat32/filepnt.c: filepnt_init makes the table of a file that is opened from its chain of clusters.
use kernel_travel.Base.{
  ℕ, zero, suc, ◌+◌, ◌*◌, ◌^◌, ◌≤◌, ◌<◌, ◌≡◌, refl, sym, ap, ◌∙◌, subst, true, false, some, List,
  [], ◌∷◌, arith, ◌==◌, u32, le→ltb, length, get_elem?, ok, Returns, returns, Returns-bind,
  Returns-mono, u32_small, if-true, if-false, Returns-after,
}
use kernel_travel.Base.{◌*◌}
use kernel_travel.Cluster.{SuperBlock, Disk}
use kernel_travel.Cluster.Table.{IsVolume, entry, fat_read-entry}
use kernel_travel.Cluster.Chain.{Chain, chain_end, chain_link, below_end}
use kernel_travel.FatFile.{DirentPointer, filepnt_getclusbyno, init_loop, filepnt_init}
use kernel_travel.FatFile.Pointer.{table_size, IsEntered, filepnt_setval-IsEntered}

-- From index `i` on the table `p'` has the clusters, and before it what `p` has.
record HasClusters (cs : List ℕ) (p : DirentPointer) (i : ℕ) (p' : DirentPointer) : Type 0 where
  clusters : (j v : ℕ) → get_elem? cs j ≡ some v → filepnt_getclusbyno p' (i + j) ≡ ok v
  before : (j v : ℕ) → j < i → filepnt_getclusbyno p j ≡ ok v → filepnt_getclusbyno p' j ≡ ok v

valid_same :
    (p : DirentPointer) (j : ℕ)
    → filepnt_getclusbyno (record p { valid = true }) j ≡ filepnt_getclusbyno p j
unfolding filepnt_getclusbyno
valid_same p j = refl

at_zero : (p : DirentPointer) (j : ℕ) → filepnt_getclusbyno p j ≡ filepnt_getclusbyno p (0 + j)
at_zero p j = let shift : j ≡ 0 + j = omega arith in ap (filepnt_getclusbyno p) shift

HasClusters-nil : (p : DirentPointer) (i : ℕ) → HasClusters [] p i p
HasClusters-nil p i = record {
  clusters = λ j v g. absurd (ground (arith, g));
  before = λ j v h k. k;
}

HasClusters-cons :
    {cs : List ℕ} {p p' : DirentPointer} (p1 : DirentPointer) (c i : ℕ)
    → c < 2 ^ 32
    → IsEntered p p1 i c
    → HasClusters cs p1 (i + 1) p'
    → HasClusters (c ∷ cs) p i p'
HasClusters-cons {cs = cs} {p' = p'} p1 c i small e rest = record {
  clusters = at;
  before = λ j v h k. rest.before j v (omega (arith, h)) (e.others j v (omega (arith, h)) k);
}
  where
    at : (j v : ℕ) → get_elem? (c ∷ cs) j ≡ some v → filepnt_getclusbyno p' (i + j) ≡ ok v
    at zero v g =
        let same : u32 c ≡ v = u32_small c small ∙ ground (arith, g) in
        ap (filepnt_getclusbyno p') (omega arith)
        ∙ rest.before i v (omega arith) (e.here ∙ ap ok same)
    at (suc j) v g = ap (filepnt_getclusbyno p') (omega arith) ∙ rest.clusters j v g

module _ {sb : SuperBlock} (v : IsVolume sb) {disk : Disk} where
  init_loop-Chain :
      (cs : List ℕ) (fuel free c i : ℕ) (p : DirentPointer)
      → Chain sb disk cs c
      → length cs ≤ fuel
      → i + length cs ≤ table_size
      → 2 * length cs ≤ free
      → Returns (λ r. HasClusters cs p i r.1) (init_loop fuel free sb disk p i c)
  unfolding init_loop
  init_loop-Chain [] zero free c i p (chain_end e) hf room pages =
      subst (Returns (λ r. HasClusters [] p i r.1)) (sym (if-false _ _ (le→ltb c 0x0ffffff8 e)))
        (returns (HasClusters-nil p i))
  init_loop-Chain [] (suc fuel) free c i p (chain_end e) hf room pages =
      subst (Returns (λ r. HasClusters [] p i r.1)) (sym (if-false _ _ (le→ltb c 0x0ffffff8 e)))
        (returns (HasClusters-nil p i))
  init_loop-Chain (_ ∷ cs) zero free c i p (chain_link lo hi next) hf room pages =
      absurd (omega (arith, hf))
  init_loop-Chain (_ ∷ cs) (suc fuel) free c i p (chain_link lo hi next) hf room pages =
      subst (Returns (λ r. HasClusters (c ∷ cs) p i r.1)) (sym (if-true _ _ (below_end v c hi))) (
        Returns-bind
          (filepnt_setval-IsEntered free p i c (omega (arith, pages)) (omega (arith, room)))
          (λ s e. Returns-after _ (fat_read-entry v disk c lo hi) (
            Returns-mono
              (init_loop-Chain cs fuel s.0 (entry sb disk 0 c) (i + 1) s.1 next (omega (arith, hf))
                (omega (arith, room)) (omega (arith, pages, e.0)))
              (λ r k. HasClusters-cons s.1 c i (omega (arith, hi, v.few)) e.1 k))))

  -- filepnt_init of a file with a chain that the table has room for, whose table is not made yet, and two
  -- pages in the pool for each cluster, ends and
  -- makes a table in which each index of the chain leads to the cluster there.
  pub filepnt_init-clusters :
      (cs : List ℕ) (fuel free c : ℕ) (p : DirentPointer)
      → Chain sb disk cs c
      → 2 ≤ c
      → length cs ≤ fuel
      → length cs ≤ table_size
      → 2 * length cs ≤ free
      → p.valid ≡ false
      → Returns
          (λ r.
            (r.1.valid ≡ true)
            × ((j u : ℕ) → get_elem? cs j ≡ some u → filepnt_getclusbyno r.1 j ≡ ok u))
          (filepnt_init fuel free sb disk p c)
  unfolding filepnt_init
  filepnt_init-clusters cs fuel free c p chain lo hf room pages off =
      subst (Returns _) (sym (if-false _ _ off ∙ if-false {b = c == 0} _ _ (ground (arith, lo)))) (
        Returns-bind (init_loop-Chain cs fuel free c 0 p chain hf (omega (arith, room)) pages)
          (λ r k. returns (refl, λ j u g. valid_same r.1 j ∙ at_zero r.1 j ∙ k.clusters j u g)))
