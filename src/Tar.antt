-- ===== src/Tar.antt =====
-- src/domain/tar_validation.rs, over what it uses of the `tar` crate and of `std::fs`.
pub mod Limits
use app_salmon.Base.{
  ℕ, suc, ◌+◌, String, List, [], ◌∷◌, Bool, true, false, Result, ok, err, map_err, ltb, leb,
  if◌then◌else◌,
}
use app_salmon.Base
use app_salmon.Base.Action.{Action, ◌>>=◌, ◌>>◌, pure, lift, on_err}
use app_salmon.Base.Paths.{join}
use app_salmon.Errors.{Source}

pub record TarLimits : Type 0 where
  pub max_entry_bytes : ℕ  -- u64
  pub max_total_bytes : ℕ  -- u64

-- `other` stands for the types that are never accepted.
pub data EntryType : Type 0 where
  regular directory other : EntryType

pub data TarValidationError : Type 0 where
  disallowed_entry_type : (index : ℕ) (path : String) (entry_type : EntryType) → TarValidationError
  entry_too_large : (index : ℕ) (path : String) (size_bytes limit_bytes : ℕ) → TarValidationError
  total_too_large : (limit_bytes : ℕ) → TarValidationError
  unsafe_entry : (index : ℕ) (path : String) → TarValidationError
  read : (index : ℕ) (source : Source) → TarValidationError
  extract : (index : ℕ) (path : String) (source : Source) → TarValidationError

-- An entry of an archive, as its header gives it.
pub record Entry : Type 0 where
  pub entry_type : EntryType
  pub size : Result Source ℕ
  pub path : Result Source String

-- `tar` and `std::fs`: the entries of an archive in memory, each of which may be unreadable;
-- `unpack_in`, which answers whether it accepted the path; and `set_permissions`.
pub record Archive (W : Type 0) : Type 0 where
  pub entries : List ℕ → Result Source (List (Result Source Entry))
  pub unpack_in : Entry → String → Action W Source Bool
  pub set_permissions : String → ℕ → Action W Source (Unit {0})

abbrev pub usize_max : ℕ
usize_max = 18446744073709551615

-- `u64::saturating_add`.
abbrev pub saturating_add : ℕ → ℕ → ℕ
saturating_add a b = if leb (a + b) 18446744073709551615 then a + b else 18446744073709551615

unfoldable pub entry_path_for_display : Entry → String
entry_path_for_display entry = elim entry.path [ ok path ↦ path | err _ ↦ "<unreadable path>" ]

abbrev pub is_allowed : EntryType → Bool
is_allowed regular = true
is_allowed directory = true
is_allowed other = false

-- `0o755` and `0o644`.
abbrev mode_of : EntryType → ℕ
mode_of directory = 493
mode_of _ = 420

module _ (limits : TarLimits) where
  unfoldable pub check_size : ℕ → ℕ → Entry → ℕ → Result TarValidationError ℕ
  check_size index total entry size =
      let total' = saturating_add total size in
      if ltb limits.max_entry_bytes size
      then err (entry_too_large index (entry_path_for_display entry) size limits.max_entry_bytes)
      else if ltb limits.max_total_bytes total'
      then err (total_too_large limits.max_total_bytes)
      else ok total'

  -- The checks that an entry passes before anything is unpacked; the answer is the new total.
  unfoldable pub check_entry : ℕ → ℕ → Entry → Result TarValidationError ℕ
  check_entry index total entry =
      if is_allowed entry.entry_type
      then (Base.◌>>=◌ (map_err (read index) entry.size) λ size. check_size index total entry size)
      else err (disallowed_entry_type index (entry_path_for_display entry) entry.entry_type)

module _ {W : Type 0} (archive : Archive W) (limits : TarLimits) (dest : String) where
  unfoldable pub fix_permissions : ℕ → Entry → Bool → Action W TarValidationError (Unit {0})
  fix_permissions index entry false = lift (err (unsafe_entry index (entry_path_for_display entry)))
  fix_permissions index entry true = do
    path ← lift (map_err (read index) entry.path)
    on_err (extract index (entry_path_for_display entry))
        (archive.set_permissions (join dest path) (mode_of entry.entry_type))

  unfoldable pub unpack_entry : ℕ → Entry → Action W TarValidationError (Unit {0})
  unpack_entry index entry = do
    unpacked ← on_err (extract index (entry_path_for_display entry)) (archive.unpack_in entry dest)
    fix_permissions index entry unpacked

  -- The loop over the archive's entries, from the one at `index`.
  unfoldable pub extract_entries :
      ℕ → ℕ → List (Result Source Entry) → Action W TarValidationError (Unit {0})
  extract_entries index total [] = pure tt
  extract_entries index total (found ∷ rest) = do
    entry ← lift (map_err (read index) found)
    total' ← lift (check_entry limits index total entry)
    unpack_entry index entry
    extract_entries (suc index) total' rest

  unfoldable pub validate_and_extract : List ℕ → Action W TarValidationError (Unit {0})
  validate_and_extract tar_bytes = do
    entries ← lift (map_err (read usize_max) (archive.entries tar_bytes))
    extract_entries 0 0 entries
