-- ===== src/Tar/Limits.antt =====
-- What `validate_and_extract` of src/domain/tar_validation.rs lets through to the file system.
use app_salmon.Base.{
  ℕ, suc, map, ap, ◌∙◌, ◌+◌, ◌<◌, ◌≤◌, ◌≡◌, refl, sym, subst, String, List, [], ◌∷◌, ◌++◌, Bool,
  true, false, Result, ok, err, map_err, ltb, Bool-cases, Result-cases, inl, inr, All, All-append,
  ◌⊎◌, arith,
}
use app_salmon.Base.Action.{lift, on_err}
use app_salmon.Base.Paths.{join}
use app_salmon.Base.Post.{Post, lift-Post, weaken, bind-Post, on_err-Post}
use app_salmon.Errors.{Source}
use app_salmon.Tar.{
  TarLimits, Entry, Archive, saturating_add, EntryType, regular, directory, other, is_allowed,
  check_size, check_entry, fix_permissions, unpack_entry, extract_entries, validate_and_extract,
  read, extract, entry_path_for_display,
}

-- The size in an entry's header, where it can be read.
abbrev pub size_of : Entry → ℕ
size_of entry = elim entry.size [ ok n ↦ n | err _ ↦ 0 ]

abbrev pub total_size : List Entry → ℕ
total_size [] = 0
total_size (e ∷ es) = size_of e + total_size es

-- An entry that may be unpacked: a regular file or a directory, within the limit for one entry.
abbrev pub Admissible : TarLimits → Entry → Type 0
Admissible limits e =
    ((e.entry_type ≡ regular) ⊎ (e.entry_type ≡ directory)) × (size_of e ≤ limits.max_entry_bytes)

is_allowed_lem : (t : EntryType) → is_allowed t ≡ true → (t ≡ regular) ⊎ (t ≡ directory)
is_allowed_lem regular h = inl refl
is_allowed_lem directory h = inr refl
is_allowed_lem other h = absurd (ground arith)

-- Every entry is admissible, and all of them together keep to the cumulative limit.
abbrev pub Fits : TarLimits → List Entry → Type 0
Fits limits es = All (Admissible limits) es × (total_size es ≤ limits.max_total_bytes)

total_size-append :
    (es : List Entry) (e : Entry) → total_size (es ++ e ∷ []) ≡ total_size es + size_of e
total_size-append [] e = omega arith
total_size-append (d ∷ es) e = omega (arith, total_size-append es e)

-- What `tar` and `std::fs` are relied on for, where `Unpacked w es` says that the entries handed to
-- `unpack_in` so far are `es`.
pub record IsArchive {W : Type 0} (Unpacked : W → List Entry → Type 0) (archive : Archive W)
    : Type 0 where
  pub unpack_in_lem :
      (e : Entry) (dest : String) (w : W) (es : List Entry)
      → Unpacked w es
      → Post Unpacked
          (λ _ es'. es' ≡ es ++ e ∷ [])
          (λ _ es'. es' ≡ es ++ e ∷ [])
          (archive.unpack_in e dest w)
  pub set_permissions_lem :
      (p : String) (mode : ℕ) (w : W) (es : List Entry)
      → Unpacked w es
      → Post Unpacked (λ _ es'. es' ≡ es) (λ _ es'. es' ≡ es) (archive.set_permissions p mode w)

append_nil : (xs : List (Result Source Entry)) → xs ++ [] ≡ xs
append_nil [] = refl
append_nil (x ∷ xs) = ap (λ ys. x ∷ ys) (append_nil xs)

append_ok :
    (es : List Entry) (e : Entry) (rest : List (Result Source Entry))
    → map ok (es ++ e ∷ []) ++ rest ≡ map ok es ++ ok e ∷ rest
append_ok [] e rest = refl
append_ok (d ∷ es) e rest = ap (λ ys. ok d ∷ ys) (append_ok es e rest)

module _ (limits : TarLimits) where
  -- An entry that passes the checks is admissible, and the new total counts it.
  check_entry_sound :
      (n total total' : ℕ) (e : Entry)
      → limits.max_total_bytes < 18446744073709551615
      → check_entry limits n total e ≡ ok total'
      → Admissible limits e × (total' ≡ total + size_of e) × (total' ≤ limits.max_total_bytes)
  unfolding check_entry check_size
  check_entry_sound n total total' e small h = elim (Bool-cases (is_allowed e.entry_type)) [
    | inr bad ↦ absurd (cc (bad, h))
    | inl good ↦ elim (Result-cases e.size) [
      | inr (source, bad) ↦ absurd (cc (good, bad, h))
      | inl (size, known) ↦ elim (Bool-cases (ltb limits.max_entry_bytes size)) [
        | inl over ↦ absurd (cc (good, known, over, h))
        | inr fits ↦ elim (Bool-cases (ltb limits.max_total_bytes (saturating_add total size))) [
          | inl over ↦ absurd (cc (good, known, fits, over, h))
          | inr under ↦
              let same : saturating_add total size ≡ total' =
                ground (arith, good, known, fits, under, h) in
              rw known (
                (is_allowed_lem e.entry_type good, ground (arith, fits)),
                ground (arith, same, under, small),
                ground (arith, same, under),
              )
        ]
      ]
    ]
  ]

module _ {W : Type 0} {Unpacked : W → List Entry → Type 0} (archive : Archive W)
    (laws : IsArchive Unpacked archive) (limits : TarLimits) (dest : String) where
  fix_permissions-Post :
      (n : ℕ) (e : Entry) (b : Bool) (w : W) (es : List Entry)
      → Unpacked w es
      → Post Unpacked
          (λ _ es'. es' ≡ es)
          (λ _ es'. es' ≡ es)
          (fix_permissions archive limits dest n e b w)
  unfolding fix_permissions
  fix_permissions-Post n e false w es h = record { ends = (es, h, refl) }
  fix_permissions-Post n e true w es h =
      bind-Post (lift (map_err (read n) e.path) w) _
        (λ path w' es' h' same.
          on_err-Post (extract n (entry_path_for_display e))
            (archive.set_permissions (join dest path) _) w' (λ _ _ same'. same')
            (laws.set_permissions_lem (join dest path) _ w' es (subst (Unpacked w') same h')))
        (λ _ _ same. same) (lift-Post (map_err (read n) e.path) w es h)

  unpack_entry-Post :
      (n : ℕ) (e : Entry) (w : W) (es : List Entry)
      → Unpacked w es
      → Post Unpacked
          (λ _ es'. es' ≡ es ++ e ∷ [])
          (λ _ es'. es' ≡ es ++ e ∷ [])
          (unpack_entry archive limits dest n e w)
  unfolding unpack_entry
  unpack_entry-Post n e w es h =
      bind-Post (on_err (extract n (entry_path_for_display e)) (archive.unpack_in e dest) w) _
        (λ b w' es' h' same.
          subst
            (λ x.
              Post Unpacked (λ _ y. y ≡ x) (λ _ y. y ≡ x)
                (fix_permissions archive limits dest n e b w'))
            same (fix_permissions-Post n e b w' es' h'))
        (λ _ _ same. same)
        (on_err-Post (extract n (entry_path_for_display e)) (archive.unpack_in e dest) w
          (λ _ _ same. same) (laws.unpack_in_lem e dest w es h))

  Fits-append :
      (es : List Entry) (e : Entry)
      → Fits limits es
      → Admissible limits e
      → total_size es + size_of e ≤ limits.max_total_bytes
      → Fits limits (es ++ e ∷ [])
  Fits-append es e (all, _) good below = (
    All-append (Admissible limits) es (e ∷ []) all (good, tt),
    omega (arith, total_size-append es e, below),
  )

  extract_entries-Post :
      (n total : ℕ) (rest : List (Result Source Entry)) (w : W) (es : List Entry)
      → limits.max_total_bytes < 18446744073709551615
      → total ≡ total_size es
      → Fits limits es
      → Unpacked w es
      → Post Unpacked
          (λ _ es'. Fits limits es' × (map ok es' ≡ map ok es ++ rest))
          (λ _ es'. Fits limits es')
          (extract_entries archive limits dest n total rest w)
  unfolding extract_entries
  extract_entries-Post n total [] w es small count fits h = record {
    ends = (es, h, (fits, sym (append_nil (map ok es))));
  }
  extract_entries-Post n total (found ∷ rest) w es small count fits h = elim (Result-cases found) [
    | inr (source, bad) ↦ rw bad (record { ends = (es, h, fits) })
    | inl (e, good) ↦ rw good (elim (Result-cases (check_entry limits n total e)) [
      | inr (problem, bad) ↦ rw bad (record { ends = (es, h, fits) })
      | inl (total', passed) ↦
          let (admissible, sum, below) = check_entry_sound limits n total total' e small passed in
          let fits' : Fits limits (es ++ e ∷ []) =
            Fits-append es e fits admissible (omega (arith, sum, count, below)) in
          rw passed (
            bind-Post (unpack_entry archive limits dest n e w) _
              (λ _ w' es' h' same.
                weaken _ (λ _ x (f, m). (f, m ∙ append_ok es e rest)) (λ _ x f. f)
                  (extract_entries-Post (suc n) total' rest w' (es ++ e ∷ []) small
                    (omega (arith, sum, count, total_size-append es e)) fits'
                    (subst (Unpacked w') same h')))
              (λ _ x same. subst (Fits limits) (sym same) fits') (unpack_entry-Post n e w es h))
    ])
  ]

  -- However the extraction of an archive ends, the entries that reached `unpack_in` were regular
  -- files and directories within the per-entry limit, and together within the cumulative limit; if
  -- it succeeds, they are all of the archive's entries, in order. The cumulative limit is below
  -- the largest `u64`.
  pub validate_and_extract-Post :
      (bytes : List ℕ) (w : W)
      → limits.max_total_bytes < 18446744073709551615
      → Unpacked w []
      → Post Unpacked
          (λ _ es. Fits limits es × (archive.entries bytes ≡ ok (map ok es)))
          (λ _ es. Fits limits es)
          (validate_and_extract archive limits dest bytes w)
  unfolding validate_and_extract
  validate_and_extract-Post bytes w small h = elim (Result-cases (archive.entries bytes)) [
    | inr (source, bad) ↦ rw bad (record { ends = ([], h, (tt, omega arith)) })
    | inl (rest, good) ↦ rw good (
        weaken _ (λ _ es (f, m). (f, ap ok (sym m))) (λ _ es f. f)
          (extract_entries-Post 0 0 rest w [] small refl (tt, omega arith) h))
  ]
