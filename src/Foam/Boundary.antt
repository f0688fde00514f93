-- ===== src/Foam/Boundary.antt =====
-- The boundary file of an OpenFOAM mesh: ParseBoundaryFile of OmniSciOpenFoamFileFormat.cpp.
use cae_openusd_plugins.Prelude.{
  ℕ, zero, suc, ◌-◌, ◌^◌, ◌&&◌, Option, List, [], ◌∷◌, Bytes, length, ltb, ◌==◌, if◌then◌else◌,
}
use cae_openusd_plugins.Prelude.Int.{ℤ, pos, negsuc}
use cae_openusd_plugins.Prelude.Result.{Result, ok, err, ◌>>=◌, ◌>>◌, guard, require}
use cae_openusd_plugins.Foam.{
  FoamError, cannot_open, unexpected_eof, length_error, overflow, out_of_fuel, is_nil, is_named,
  read_token, expect_token, read_int_token, read_header, parse_header_info,
}

pub record BoundaryPatchInfo : Type 0 where
  pub name : Bytes
  pub type : Bytes
  pub start_face : ℤ
  pub n_faces : ℤ

abbrev pub new_patch : Bytes → BoundaryPatchInfo
new_patch name = record { name = name; type = []; start_face = pos 0; n_faces = pos 0 }

-- `parenDepth` behind a token, an int.
abbrev pub depth_after : Bytes → ℕ → ℕ
depth_after token depth =
    if is_named token "(" then suc depth else if is_named token ")" then depth - 1 else depth

-- The loop over the value of an entry that is not read, up to its semicolon.
unfoldable pub skip_entry : ℕ → ℕ → Bytes → Result FoamError Bytes
skip_entry zero depth text = err out_of_fuel
skip_entry (suc fuel) depth text =
    let (token, rest) = read_token text in
    if is_nil token
    then err unexpected_eof
    else if is_named token ";" && depth == 0
    then ok rest
    else (guard (ltb (depth_after token depth) (2 ^ 31)) overflow
        >> skip_entry fuel (depth_after token depth) rest)

-- The entry `startFace` or `nFaces`.
unfoldable pub int_entry : Bytes → Result FoamError (ℤ × Bytes)
int_entry text = do (n, behind) ← read_int_token text; rest ← expect_token ";" behind; ok (n, rest)

-- The loop over the entries of a patch. Each takes a byte or more.
unfoldable pub parse_patch :
    ℕ → BoundaryPatchInfo → Bytes → Result FoamError (BoundaryPatchInfo × Bytes)
parse_patch zero patch text = err out_of_fuel
parse_patch (suc fuel) patch text =
    let (key, rest) = read_token text in
    if is_named key "}"
    then ok (patch, rest)
    else if is_named key "type"
    then (expect_token ";" (read_token rest).1 >>= λ later.
        parse_patch fuel (record patch { type = (read_token rest).0 }) later)
    else if is_named key "startFace"
    then (int_entry rest >>= λ e. parse_patch fuel (record patch { start_face = e.0 }) e.1)
    else if is_named key "nFaces"
    then (int_entry rest >>= λ e. parse_patch fuel (record patch { n_faces = e.0 }) e.1)
    else (skip_entry (suc (length rest)) 0 rest >>= λ later. parse_patch fuel patch later)

-- The loop over the patches.
unfoldable pub parse_patches : ℕ → Bytes → Result FoamError (List BoundaryPatchInfo × Bytes)
parse_patches zero text = ok ([], text)
parse_patches (suc count) text = do
  let (name, behind_name) = read_token text
  behind_brace ← expect_token "{" behind_name
  (patch, rest) ← parse_patch (suc (length behind_brace)) (new_patch name) behind_brace
  (patches, later) ← parse_patches count rest
  ok (patch ∷ patches, later)

-- `reserve` of a count that is cast to size_t refuses a negative one.
abbrev pub reserved : ℤ → Result FoamError ℕ
reserved (pos n) = ok n
reserved (negsuc n) = err length_error

-- `ParseBoundaryFile`, of a file that may not open.
unfoldable pub parse_boundary_file : Option Bytes → Result FoamError (List BoundaryPatchInfo)
parse_boundary_file file = do
  content ← require file cannot_open
  (header, behind_header) ← read_header content
  info ← parse_header_info header
  (patch_count, behind_count) ← read_int_token behind_header
  behind_paren ← expect_token "(" behind_count
  count ← reserved patch_count
  (patches, behind_patches) ← parse_patches count behind_paren
  end ← expect_token ")" behind_patches
  ok patches
