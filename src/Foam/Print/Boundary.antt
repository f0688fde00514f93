-- ===== src/Foam/Print/Boundary.antt =====
-- Boundary files as they are written from patches, and ParseBoundaryFile on them.
use cae_openusd_plugins.Prelude.{
  ℕ, suc, ◌^◌, ◌<◌, ◌≡◌, refl, ◌∙◌, true, false, some, List, [], ◌∷◌, ◌++◌, Bytes, map, length,
  same,
}
use cae_openusd_plugins.Prelude.Chars.{codes, is_space}
use cae_openusd_plugins.Prelude.Decimal.{to_string}
use cae_openusd_plugins.Prelude.Int.{pos}
use cae_openusd_plugins.Prelude.Result.{ok, ◌>>=◌, ◌>>◌, guard, require, ok-bind, true-bind}
use cae_openusd_plugins.Foam.{
  skip_ws_and_comments, take_word, token_of, read_token, expect_token, read_int_token, read_header,
  read_entries, set_entry, find_entry, read_format, FoamHeaderInfo, parse_header_info,
}
use cae_openusd_plugins.Foam.Boundary.{
  BoundaryPatchInfo, new_patch, parse_patch, parse_patches, parse_boundary_file,
}
use cae_openusd_plugins.Foam.Print.{
  IsWord, read_token-word, read_token-space, read_token-punctuation, expect_token_lem,
  to_string-IsWord, stoi-to_string, int_entry-to_string,
}

-- A patch with the numbers that a mesh has.
pub record Patch : Type 0 where
  pub name : Bytes
  pub type : Bytes
  pub start_face : ℕ
  pub n_faces : ℕ

abbrev pub patch_info : Patch → BoundaryPatchInfo
patch_info patch = record {
  name = patch.name;
  type = patch.type;
  start_face = pos patch.start_face;
  n_faces = pos patch.n_faces;
}

pub record IsPatch (patch : Patch) : Type 0 where
  pub name : IsWord patch.name
  pub type : IsWord patch.type
  pub start_face : patch.start_face < 2 ^ 31
  pub n_faces : patch.n_faces < 2 ^ 31

abbrev pub ArePatches : List Patch → Type 0
ArePatches [] = Unit {0}
ArePatches (patch ∷ patches) = IsPatch patch × ArePatches patches

-- An entry with its value, before a text.
abbrev pub print_entry : Bytes → Bytes → Bytes → Bytes
print_entry key value rest = key ++ 32 ∷ (value ++ b';' ∷ rest)

abbrev pub print_entries : Patch → Bytes → Bytes
print_entries patch rest = print_entry (codes "type") patch.type (
    print_entry (codes "startFace") (to_string patch.start_face)
      (print_entry (codes "nFaces") (to_string patch.n_faces) (b'}' ∷ rest)))

abbrev pub print_patches : List Patch → Bytes → Bytes
print_patches [] rest = rest
print_patches (patch ∷ patches) rest =
    patch.name ++ b'{' ∷ print_entries patch (print_patches patches rest)

-- A boundary file, with the least header, and any text behind it.
abbrev pub print_boundary : List Patch → Bytes → Bytes
print_boundary patches rest =
    codes "FoamFile{format ascii;}"
    ++ (to_string (length patches) ++ b'(' ∷ print_patches patches (b')' ∷ rest))

module _ (fuel : ℕ) (patch : BoundaryPatchInfo) (rest : Bytes) where
  parse_patch-type :
      (value : Bytes)
      → IsWord value
      → parse_patch (suc fuel) patch (print_entry (codes "type") value rest)
        ≡ parse_patch fuel (record patch { type = value }) rest
  unfolding parse_patch same is_space
  parse_patch-type value h =
      let key =
        read_token-word (codes "type") 32 (value ++ b';' ∷ rest)
          ((refl, (refl, (refl, (refl, tt)))), refl) refl in
      let word = read_token-space (value ++ b';' ∷ rest) ∙ read_token-word value b';' rest h refl in
      let semicolon =
        expect_token_lem ";" (b';' ∷ rest) rest (read_token-punctuation b';' rest refl) in
      rw (key, word, semicolon, ok-bind) refl

  parse_patch-start_face :
      (n : ℕ)
      → n < 2 ^ 31
      → parse_patch (suc fuel) patch (print_entry (codes "startFace") (to_string n) rest)
        ≡ parse_patch fuel (record patch { start_face = pos n }) rest
  unfolding parse_patch same is_space
  parse_patch-start_face n h =
      let key =
        read_token-word (codes "startFace") 32 (to_string n ++ b';' ∷ rest)
          ((refl, (refl, (refl, (refl, (refl, (refl, (refl, (refl, (refl, tt))))))))), refl) refl in
      rw (key, int_entry-to_string n rest h, ok-bind) refl

  parse_patch-n_faces :
      (n : ℕ)
      → n < 2 ^ 31
      → parse_patch (suc fuel) patch (print_entry (codes "nFaces") (to_string n) rest)
        ≡ parse_patch fuel (record patch { n_faces = pos n }) rest
  unfolding parse_patch same is_space
  parse_patch-n_faces n h =
      let key =
        read_token-word (codes "nFaces") 32 (to_string n ++ b';' ∷ rest)
          ((refl, (refl, (refl, (refl, (refl, (refl, tt)))))), refl) refl in
      rw (key, int_entry-to_string n rest h, ok-bind) refl

  parse_patch-end : parse_patch (suc fuel) patch (b'}' ∷ rest) ≡ ok (patch, rest)
  unfolding parse_patch same
  parse_patch-end = rw (read_token-punctuation b'}' rest refl) refl

-- Four rounds read the entries of a patch and their end.
parse_patch-print_entries :
    (fuel : ℕ) (patch : Patch) (rest : Bytes)
    → IsPatch patch
    → parse_patch (suc (suc (suc (suc fuel)))) (new_patch patch.name) (print_entries patch rest)
      ≡ ok (patch_info patch, rest)
parse_patch-print_entries fuel patch rest h =
    parse_patch-type (suc (suc (suc fuel))) (new_patch patch.name) _ patch.type h.type
    ∙ parse_patch-start_face (suc (suc fuel)) _ _ patch.start_face h.start_face
    ∙ parse_patch-n_faces (suc fuel) _ _ patch.n_faces h.n_faces
    ∙ parse_patch-end fuel (patch_info patch) rest

-- The fuel of the loop is enough for them.
parse_patch-whole :
    (patch : Patch) (rest : Bytes)
    → IsPatch patch
    → parse_patch
        (suc (length (print_entries patch rest)))
        (new_patch patch.name)
        (print_entries patch rest)
      ≡ ok (patch_info patch, rest)
parse_patch-whole patch rest h =
    let later =
      print_entry (codes "startFace") (to_string patch.start_face)
        (print_entry (codes "nFaces") (to_string patch.n_faces) (b'}' ∷ rest)) in
    parse_patch-print_entries (suc (suc (length (patch.type ++ b';' ∷ later)))) patch rest h

parse_patches-print_patches :
    (patches : List Patch) (rest : Bytes)
    → ArePatches patches
    → parse_patches (length patches) (print_patches patches rest)
      ≡ ok (map patch_info patches, rest)
unfolding parse_patches is_space
parse_patches-print_patches [] rest h = refl
parse_patches-print_patches (patch ∷ patches) rest (hp, h) =
    let body = print_entries patch (print_patches patches rest) in
    let name = read_token-word patch.name b'{' body hp.name refl in
    let brace = expect_token_lem "{" (b'{' ∷ body) body (read_token-punctuation b'{' body refl) in
    rw
      (
        name,
        brace,
        ok-bind,
        parse_patch-whole patch (print_patches patches rest) hp,
        ok-bind,
        parse_patches-print_patches patches rest h,
        ok-bind,
      )
      refl

read_header-print :
    (rest : Bytes)
    → read_header (codes "FoamFile{format ascii;}" ++ rest)
      ≡ ok ((codes "format", codes "ascii") ∷ [], rest)
unfolding read_header read_entries expect_token read_token skip_ws_and_comments token_of take_word
    is_space same set_entry guard ◌>>◌ ◌>>=◌
read_header-print rest = refl

ascii_info : FoamHeaderInfo
ascii_info = record {
  entries = (codes "format", codes "ascii") ∷ [];
  binary = false;
  little_endian = true;
  label_bits = pos 32;
  scalar_bits = pos 32;
  foam_class = [];
}

header_info : parse_header_info ((codes "format", codes "ascii") ∷ []) ≡ ok ascii_info
unfolding ascii_info parse_header_info read_format find_entry same require ◌>>=◌
header_info = refl

-- A boundary file that is written from patches, with the least header and any text behind it, is
-- read back as these patches, in their order. The names and the types are words without a space,
-- punctuation, a quote or a slash; the numbers, and that of the patches, are each below 2 ^ 31.
pub parse_boundary_file-print_boundary :
    (patches : List Patch) (rest : Bytes)
    → ArePatches patches
    → length patches < 2 ^ 31
    → parse_boundary_file (some (print_boundary patches rest)) ≡ ok (map patch_info patches)
unfolding parse_boundary_file require read_int_token is_space
parse_boundary_file-print_boundary patches rest h size =
    let body = print_patches patches (b')' ∷ rest) in
    let n = length patches in
    let header = read_header-print (to_string n ++ b'(' ∷ body) in
    let info = header_info in
    let count = read_token-word (to_string n) b'(' body (to_string-IsWord n) refl in
    let paren = expect_token_lem "(" (b'(' ∷ body) body (read_token-punctuation b'(' body refl) in
    let end = expect_token_lem ")" (b')' ∷ rest) rest (read_token-punctuation b')' rest refl) in
    rw
      (
        ok-bind,
        header,
        ok-bind,
        info,
        ok-bind,
        count,
        (to_string-IsWord n).1,
        true-bind,
        stoi-to_string n size,
        ok-bind,
        ok-bind,
        paren,
        ok-bind,
        ok-bind,
        parse_patches-print_patches patches (b')' ∷ rest) h,
        ok-bind,
        end,
        ok-bind,
      )
      refl
