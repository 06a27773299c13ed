-- ===== src/Disk/Paths.antt =====
-- engine/src/workloads/disk_io.cpp: where the test file is, which paths are refused, how a workload
-- opens the file, and `prepare_config`, which both disk workloads share. A path is the list of its
-- characters. What std::filesystem, getenv and the kernel answer is a record; the texts of the errors
-- are left out.
pub mod Refuses
use benchmark_platform.Prelude.{
  ℕ, max, Bool, true, false, not, ◌&&◌, ◌||◌, Option, none, some, List, [], ◌∷◌, ltb, if◌then◌else◌,
}
use benchmark_platform.Prelude.Text.{codes}
use benchmark_platform.Prelude.Result.{Result, ok, err, ◌>>=◌, ◌>>◌}
use benchmark_platform.Http.Url.{strip_prefix}
use benchmark_platform.Disk.TestFile.{Calls, Made, ensure_test_file}

-- `home` is the variable HOME; `canonical` is what weakly_canonical gives, where that is no error;
-- `slash` is the operator on paths; `makes_directories` says that create_directories succeeds.
pub record FileSystem : Type 0 where
  pub home : Option (List ℕ)
  pub slash : List ℕ → List ℕ → List ℕ
  pub canonical : List ℕ → Option (List ℕ)
  pub parent_path : List ℕ → List ℕ
  pub makes_directories : List ℕ → Bool

pub record DiskOptions : Type 0 where
  pub disk_path : List ℕ
  pub allow_9p : Bool

abbrev pub mnt : List ℕ
mnt = codes "/mnt/"

unfoldable pub starts_with_mnt : List ℕ → Bool
starts_with_mnt path = elim (strip_prefix mnt path) [ none ↦ false | some rest ↦ true ]

abbrev is_empty : List ℕ → Bool
is_empty [] = true
is_empty (c ∷ cs) = false

pub data PathError : Type 0 where
  under_mnt no_directory : PathError

-- The flags of `open`.
pub record Flags : Type 0 where
  pub direct : Bool
  pub write_only : Bool
  pub dsync : Bool

pub record DiskBase : Type 0 where
  pub path : List ℕ
  pub block : ℕ
  pub writing : Bool
  pub dsync : Bool
  pub thread_index : ℕ
  pub thread_count : ℕ
  pub file_bytes : ℕ

unfoldable pub allows_9p : Option DiskOptions → Bool
allows_9p none = false
allows_9p (some o) = o.allow_9p

module _ (fs : FileSystem) where
  unfoldable pub default_disk_path : List ℕ
  default_disk_path =
      let base : List ℕ = elim fs.home [ none ↦ codes "." | some home ↦ home ] in
      fs.slash (fs.slash (fs.slash base (codes ".cache")) (codes "bench")) (codes "testfile")

  unfoldable pub is_9p_path : List ℕ → Bool
  is_9p_path path =
      starts_with_mnt path
      || elim (fs.canonical path) [ none ↦ false | some norm ↦ starts_with_mnt norm ]

  unfoldable pub check_disk_path : (path : List ℕ) (allow_9p : Bool) → Result PathError (Unit {0})
  check_disk_path path allow_9p =
      let dir = fs.parent_path path in
      if not allow_9p && is_9p_path path
      then err PathError.under_mnt
      else (if is_empty dir
          then ok tt
          else (if fs.makes_directories dir then ok tt else err PathError.no_directory))

  -- The path of the options, where there are options and they name one.
  unfoldable pub path_for : Option DiskOptions → List ℕ
  path_for none = default_disk_path
  path_for (some o) = if is_empty o.disk_path then default_disk_path else o.disk_path

  -- With the kernel's answers while the file is made, and the file that is at a path.
  unfoldable pub prepare_config :
      (bytes_of : List ℕ → List ℕ) (block : ℕ) (calls : Calls) (existing : List ℕ → Option (List ℕ))
      (options : Option DiskOptions) (working_set_bytes seed : ℕ)
      → Result PathError Made
  prepare_config bytes_of block calls existing options working_set_bytes seed =
      let path = path_for options in
      check_disk_path path (allows_9p options)
      >> ok (ensure_test_file bytes_of block calls (existing path) working_set_bytes seed)

  -- The buffer and the write budget are left out. `stat_size` is the size that fstat gives for the file that is opened with the flags, if both
  -- calls succeed.
  unfoldable pub open_for :
      (stat_size : List ℕ → Flags → Option ℕ) (options : Option DiskOptions)
      (thread_index thread_count block : ℕ) (writing dsync : Bool)
      → Option DiskBase
  open_for stat_size options thread_index thread_count block writing dsync =
      let path = path_for options in
      let flags : Flags = record {
        direct = true;
        write_only = writing;
        dsync = writing && dsync;
      } in
      elim (stat_size path flags) [
        | none ↦ none
        | some size ↦
            if ltb size block
            then none
            else some (record {
              path = path;
              block = block;
              writing = writing;
              dsync = dsync;
              thread_index = thread_index;
              thread_count = max 1 thread_count;
              file_bytes = size;
            })
      ]
