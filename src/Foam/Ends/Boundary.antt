-- ===== src/Foam/Ends/Boundary.antt =====
-- ParseBoundaryFile, and the fuel of its loops.
use cae_openusd_plugins.Prelude.{
  ℕ, zero, suc, ◌^◌, ◌<◌, ◌≡◌, ◌≢◌, refl, sym, ap, ◌∙◌, true, false, ◌&&◌, some, List, Bytes,
  length, ltb, ◌==◌, arith,
}
use cae_openusd_plugins.Prelude.Int.{ℤ, pos, negsuc}
use cae_openusd_plugins.Prelude.Result.{ok, err, ◌>>=◌, require}
use cae_openusd_plugins.Prelude.Post.{
  Post, returns, throws, Post-bind, Post-guard, Post-eq-ok, Post-eq-err, Post-weaken, Post-value,
  if_holds,
}
use cae_openusd_plugins.Foam.{
  overflow, out_of_fuel, read_token, is_named, is_nil, expect_token, read_int_token, StringMap,
  read_header, parse_header_info,
}
use cae_openusd_plugins.Foam.Boundary.{
  BoundaryPatchInfo, new_patch, depth_after, skip_entry, int_entry, parse_patch, parse_patches,
  reserved, parse_boundary_file,
}
use cae_openusd_plugins.Foam.Ends.{
  IsThrown, read_token-le, read_token-lt, is_nil-named, Post-expect_token, Post-int_entry,
  Post-read_int_token, Post-read_header, Post-parse_header_info,
}

-- An entry that is skipped takes its semicolon.
Post-skip_entry :
    (fuel depth : ℕ) (text : Bytes)
    → length text < fuel
    → Post (λ rest. length rest < length text) IsThrown (skip_entry fuel depth text)
unfolding skip_entry
Post-skip_entry zero depth text h = absurd (omega arith)
Post-skip_entry (suc fuel) depth text h =
    let token = (read_token text).0 in
    let rest = (read_token text).1 in
    if_holds (Post (λ left. length left < length text) IsThrown) (is_nil token) (λ _. throws tt)
      (λ e.
        let shorter = read_token-lt text e in
        if_holds (Post (λ left. length left < length text) IsThrown)
          (is_named token ";" && depth == 0) (λ _. returns shorter)
          (λ _. Post-guard (ltb (depth_after token depth) (2 ^ 31)) overflow _ tt (λ _.
            Post-weaken
              (Post-skip_entry fuel (depth_after token depth) rest (omega (arith, h, shorter)))
              (λ left k. omega (arith, k, shorter)))))

Post-parse_patch :
    (fuel : ℕ) (patch : BoundaryPatchInfo) (text : Bytes)
    → length text < fuel
    → Post (λ r. Unit {0}) IsThrown (parse_patch fuel patch text)
unfolding parse_patch
Post-parse_patch zero patch text h = absurd (omega arith)
Post-parse_patch (suc fuel) patch text h =
    let key = (read_token text).0 in
    let rest = (read_token text).1 in
    let Q = Post {A = BoundaryPatchInfo × Bytes} (λ r. Unit {0}) IsThrown in
    if_holds Q (is_named key "}") (λ _. returns tt)
      (λ _.
        if_holds Q (is_named key "type")
          (λ e.
            let shorter = read_token-lt text (is_nil-named key "type" e refl) in
            Post-bind (expect_token ";" (read_token rest).1) _
              (Post-expect_token ";" (read_token rest).1)
              (λ later k.
                Post-parse_patch fuel _ later (omega (arith, h, k, shorter, read_token-le rest))))
          (λ _.
            if_holds Q (is_named key "startFace")
              (λ e.
                let shorter = read_token-lt text (is_nil-named key "startFace" e refl) in
                Post-bind (int_entry rest) _ (Post-int_entry rest)
                  (λ r k. Post-parse_patch fuel _ r.1 (omega (arith, h, k, shorter))))
              (λ _.
                if_holds Q (is_named key "nFaces")
                  (λ e.
                    let shorter = read_token-lt text (is_nil-named key "nFaces" e refl) in
                    Post-bind (int_entry rest) _ (Post-int_entry rest)
                      (λ r k. Post-parse_patch fuel _ r.1 (omega (arith, h, k, shorter))))
                  (λ _.
                    Post-bind (skip_entry (suc (length rest)) 0 rest) _
                      (Post-skip_entry (suc (length rest)) 0 rest (omega arith))
                      (λ later k.
                        Post-parse_patch fuel patch later
                          (omega (arith, h, k, read_token-le text)))))))

Post-parse_patches :
    (count : ℕ) (text : Bytes) → Post (λ r. length r.0 ≡ count) IsThrown (parse_patches count text)
unfolding parse_patches
Post-parse_patches zero text = returns refl
Post-parse_patches (suc count) text =
    let behind_name = (read_token text).1 in
    Post-bind (expect_token "{" behind_name) _ (Post-expect_token "{" behind_name)
      (λ behind_brace _.
        Post-bind
          (parse_patch (suc (length behind_brace)) (new_patch (read_token text).0) behind_brace) _
          (Post-parse_patch (suc (length behind_brace)) (new_patch (read_token text).0) behind_brace
            (omega arith))
          (λ p _.
            Post-bind (parse_patches count p.1) _ (Post-parse_patches count p.1)
              (λ r k. returns (ap suc k))))

-- The count of patches that a file announces behind its header.
abbrev pub Announces : Bytes → ℕ → Type 0
Announces content count =
    (header : StringMap × Bytes) × (rest : Bytes) × (read_header content ≡ ok header)
    × (read_int_token header.1 ≡ ok (pos count, rest))

Post-reserved : (n : ℤ) → Post (λ count. n ≡ pos count) IsThrown (reserved n)
Post-reserved (pos n) = returns refl
Post-reserved (negsuc n) = throws tt

module _ (content : Bytes) where
  IsBoundary : List BoundaryPatchInfo → Type 0
  IsBoundary patches = Announces content (length patches)

  Post-parse_boundary_file : Post IsBoundary IsThrown (parse_boundary_file (some content))
  unfolding parse_boundary_file IsBoundary require ◌>>=◌
  Post-parse_boundary_file =
      Post-bind (read_header content) _
        (Post-value (read_header content) (Post-read_header content))
        (λ header (_, is_header).
          Post-bind (parse_header_info header.0) _ (Post-parse_header_info header.0) (λ info _.
            Post-bind (read_int_token header.1) _
              (Post-value (read_int_token header.1) (Post-read_int_token header.1))
              (λ counted (_, is_count).
                Post-bind (expect_token "(" counted.1) _ (Post-expect_token "(" counted.1)
                  (λ behind_paren _.
                    Post-bind (reserved counted.0) _ (Post-reserved counted.0) (λ count is_pos.
                      Post-bind (parse_patches count behind_paren) _
                        (Post-parse_patches count behind_paren)
                        (λ r size.
                          Post-bind (expect_token ")" r.1) _ (Post-expect_token ")" r.1) (λ rest _.
                            let e : counted ≡ (pos (length r.0), counted.1) =
                              ap (λ n. (n, counted.1)) (is_pos ∙ ap pos (sym size)) in
                            returns (header, counted.1, is_header, is_count ∙ ap ok e))))))))

-- The parse of an OpenFOAM boundary file ends, whatever its bytes are: no loop over the entries
-- of its header or of a patch, nor over a value that is skipped, runs out of fuel. The patches
-- that it gives are as many as the count behind the header announces.
pub parse_boundary_file_sound :
    (content : Bytes)
    → (parse_boundary_file (some content) ≢ err out_of_fuel)
      × ((patches : List BoundaryPatchInfo)
          → parse_boundary_file (some content) ≡ ok patches
          → Announces content (length patches))
unfolding IsBoundary
parse_boundary_file_sound content = (
  (λ e. let clash : true ≡ false = Post-eq-err (Post-parse_boundary_file content) e in cc),
  (λ patches e. Post-eq-ok (Post-parse_boundary_file content) e),
)
