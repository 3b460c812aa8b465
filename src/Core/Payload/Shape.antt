-- ===== src/Core/Payload/Shape.antt =====
-- crates/pinveil-core/src/payload.rs: the body, the text and the files in order, and its lengths.
use pinveil.Base.{
  ℕ, suc, Option-cases, inl, inr, ◌+◌, ◌-◌, ◌^◌, ◌≡◌, ◌<◌, ◌≤◌, refl, ap, Text, true, ◌++◌, List,
  [], ◌∷◌, map, Option, none, some, ok, length, length-append, length-drop, drop, take-append-drop,
  take-length-append, drop-length-append, arith, min,
}
use pinveil.Core.Bytes.{is_utf8}
use pinveil.Core.Payload.{
  FileEntry, FileJson, ManifestJson, max_declared_length, meta_of, json_of_meta, length_of,
  manifest_of, text_len, text_bytes, file_bytes, saturating_sum, sum_lengths, total_length,
  split_text, split_files,
}

unfoldable pub declared : List FileJson → ℕ
declared [] = 0
declared (file ∷ files) = file.byte_length + declared files

unfoldable pub declared_text : Option ℕ → ℕ
declared_text none = 0
declared_text (some n) = n

pub sum_lengths-declared :
    (total n : ℕ) (files : List FileJson)
    → sum_lengths total files ≡ ok n
    → n ≡ total + declared files
unfolding sum_lengths declared
sum_lengths-declared total n [] h = ground arith
sum_lengths-declared total n (file ∷ files) h =
    ground (arith, sum_lengths-declared (total + file.byte_length) n files)

pub total_length-declared :
    (n : ℕ) (manifest : ManifestJson)
    → total_length manifest ≡ ok n
    → n ≡ declared_text manifest.text + declared manifest.files
unfolding total_length declared_text
total_length-declared n manifest h = elim (Option-cases manifest.text) [
  | inl eq ↦ ground (arith, sum_lengths-declared 0 n manifest.files)
  | inr (k, eq) ↦ ground (arith, sum_lengths-declared k n manifest.files)
]

pub file_bytes-split_files :
    (files : List FileJson) (body : Text)
    → declared files ≡ length body
    → file_bytes (split_files files body) ≡ body
unfolding declared file_bytes split_files
file_bytes-split_files [] [] h = refl
file_bytes-split_files [] (_ ∷ _) h = ground arith
file_bytes-split_files (file ∷ files) body h =
    rw
      (file_bytes-split_files files (drop file.byte_length body)
        (ground (arith, length-drop file.byte_length body)))
      (take-append-drop file.byte_length body)

pub length-split_files :
    (files : List FileJson) (body : Text) → length (split_files files body) ≡ length files
unfolding split_files
length-split_files [] body = refl
length-split_files (file ∷ files) body =
    ap suc (length-split_files files (drop file.byte_length body))

pub length-map {ℓ κ} :
    {A : Type ℓ} {B : Type κ} (f : A → B) (xs : List A) → length (map f xs) ≡ length xs
length-map f [] = refl
length-map f (x ∷ xs) = ap suc (length-map f xs)

-- The split of the text puts nothing aside.
pub split_text-parts :
    (n : Option ℕ) (body rest : Text) (text : Option Text)
    → split_text n body ≡ ok (text, rest)
    → (text_bytes text ++ rest ≡ body) × (length rest ≡ length body - declared_text n)
unfolding split_text text_bytes declared_text
split_text-parts none body rest text h = ground arith
split_text-parts (some n) body rest text h =
    ground (arith, length-drop n body, take-append-drop n body)

pub sum_lengths-files :
    (total : ℕ) (files : List FileEntry)
    → total + length (file_bytes files) ≤ max_declared_length
    → sum_lengths total (map json_of_meta (map meta_of files))
      ≡ ok (total + length (file_bytes files))
unfolding sum_lengths file_bytes json_of_meta meta_of
sum_lengths-files total [] h = ground arith
sum_lengths-files total (file ∷ files) h = ground (
  arith,
  sum_lengths-files (total + length file.data_) files,
  length-append file.data_ (file_bytes files),
)

pub split_files-file_bytes :
    (files : List FileEntry)
    → split_files (map json_of_meta (map meta_of files)) (file_bytes files) ≡ files
unfolding split_files file_bytes json_of_meta meta_of
split_files-file_bytes [] = refl
split_files-file_bytes (file ∷ files) =
    rw
      (
        take-length-append file.data_ (file_bytes files),
        drop-length-append file.data_ (file_bytes files),
        split_files-file_bytes files,
      )
      refl

-- A Rust string is UTF-8.
unfoldable pub TextIsUtf8 : Option Text → Type 0
TextIsUtf8 none = Unit
TextIsUtf8 (some text) = is_utf8 text ≡ true

pub split_text-text_bytes :
    (text : Option Text) (rest : Text)
    → TextIsUtf8 text
    → split_text (length_of text) (text_bytes text ++ rest) ≡ ok (text, rest)
unfolding split_text text_bytes length_of TextIsUtf8
split_text-text_bytes none rest h = refl
split_text-text_bytes (some text) rest h =
    rw (take-length-append text rest, drop-length-append text rest, h) refl

pub total_length-files :
    (text : Option Text) (files : List FileEntry)
    → length (text_bytes text) + length (file_bytes files) ≤ max_declared_length
    → total_length (manifest_of text (map meta_of files))
      ≡ ok (length (text_bytes text) + length (file_bytes files))
unfolding total_length manifest_of length_of text_bytes
total_length-files none files h = sum_lengths-files 0 files h
total_length-files (some text) files h = ground (arith, sum_lengths-files (length text) files)

pub saturating_sum-files :
    (total : ℕ) (files : List FileEntry)
    → total + length (file_bytes files) < 2 ^ 64
    → saturating_sum total (map meta_of files) ≡ total + length (file_bytes files)
unfolding saturating_sum file_bytes meta_of
saturating_sum-files total [] h = ground arith
saturating_sum-files total (file ∷ files) h =
    let fits : min (total + length file.data_) (2 ^ 64 - 1) ≡ total + length file.data_ =
      ground (arith, length-append file.data_ (file_bytes files)) in
    rw (saturating_sum, fits)
      (ground (
        arith,
        saturating_sum-files (total + length file.data_) files,
        length-append file.data_ (file_bytes files),
      ))

pub text_len-text_bytes : (text : Option Text) → text_len text ≡ length (text_bytes text)
unfolding text_len text_bytes
text_len-text_bytes none = refl
text_len-text_bytes (some text) = refl
