-- ===== src/Disk/Paths/Refuses.antt =====
-- Which paths the disk workloads refuse.
use benchmark_platform.Prelude.{
  ℕ, true, false, ◌≡◌, ◌⊎◌, refl, List, Option, inl, inr, [], ◌∷◌, ap, sym, ◌∙◌,
}
use benchmark_platform.Prelude.Result.{ok, err}
use benchmark_platform.Disk.TestFile.{Calls}
use benchmark_platform.Disk.Paths.{
  FileSystem, DiskOptions, PathError, is_9p_path, check_disk_path, path_for, allows_9p,
  prepare_config,
}

List-cases : (xs : List ℕ) → (xs ≡ []) ⊎ ((x : ℕ) × (rest : List ℕ) × (xs ≡ x ∷ rest))
List-cases [] = inl refl
List-cases (x ∷ rest) = inr (x, rest, refl)

module _ (fs : FileSystem) where
  check_disk_path-under_mnt :
      (path : List ℕ)
      → is_9p_path fs path ≡ true
      → check_disk_path fs path false ≡ err PathError.under_mnt
  unfolding check_disk_path
  check_disk_path-under_mnt path on_9p = rw (check_disk_path, on_9p) refl

  -- A path that is under /mnt, or resolves to one that is, is accepted where the options allow it
  -- and its directory can be made, or it has none.
  check_disk_path-allowed :
      (path : List ℕ)
      → (fs.parent_path path ≡ []) ⊎ (fs.makes_directories (fs.parent_path path) ≡ true)
      → check_disk_path fs path true ≡ ok tt
  unfolding check_disk_path
  check_disk_path-allowed path (inl none_needed) = rw (check_disk_path, none_needed) refl
  check_disk_path-allowed path (inr made) = elim (List-cases (fs.parent_path path)) [
    | inl e ↦ rw (check_disk_path, e) refl
    | inr (c, cs, e) ↦
        let m : fs.makes_directories (c ∷ cs) ≡ true = ap fs.makes_directories (sym e) ∙ made in
        rw (check_disk_path, e, m) refl
  ]

  -- Where 9p is not allowed, for a path under /mnt, or one that resolves to such a path, there is no
  -- test file made, whatever is at the path and however the kernel would answer.
  prepare_config-under_mnt :
      (bytes_of : List ℕ → List ℕ) (block : ℕ) (calls : Calls) (existing : List ℕ → Option (List ℕ))
      (options : Option DiskOptions) (working_set_bytes seed : ℕ)
      → allows_9p options ≡ false
      → is_9p_path fs (path_for fs options) ≡ true
      → prepare_config fs bytes_of block calls existing options working_set_bytes seed
        ≡ err PathError.under_mnt
  unfolding prepare_config
  prepare_config-under_mnt bytes_of block calls existing options bytes seed closed on_9p =
      rw (prepare_config, closed, check_disk_path-under_mnt (path_for fs options) on_9p) refl
