-- ===== src/Hasher/Bytes.antt =====
-- The length of the digests of src/crypto/hasher.c.
use aex_cpp_sdk.Base.{
  ℕ, zero, suc, ◌+◌, ◌*◌, ◌≡◌, refl, ap, ◌∙◌, arith, List, map, Bool, true, false, Bool-cases, inl,
  inr, ltb, ◌==◌, if◌then◌else◌, length, length-append, length-map, length-drop, take, drop, All,
  IsByte, All-append,
}
use aex_cpp_sdk.Bignum.Bytes.Bounds.{bytes_from}
use aex_cpp_sdk.Sha2.Sha256
use aex_cpp_sdk.Sha2.Frame.{Context, used_space, last_block, last, final}
use aex_cpp_sdk.Sha2.Frame.Bytes.{length-store_words, store_words-IsByte}
use aex_cpp_sdk.Sha2.Digest.{sha256, sha256_final}
use aex_cpp_sdk.Ripemd160.{
  Ripemd160Context, ripemd160_init, count_bytes, fill_buffer, process_block, whole_blocks,
  ripemd160_update, ripemd160_final, ripemd160,
}
use aex_cpp_sdk.Ripemd160.Process.{ripemd160_process, combine}
use aex_cpp_sdk.Hasher.{
  HasherType, hasher_sha2, hasher_sha2d, hasher_sha2_ripemd, hasher_final, finish, Hasher,
}

length-transform : (state block : List ℕ) → length (Sha256.transform state block) ≡ 8
unfolding Sha256.transform
length-transform state block = refl

length-last : (c : Context ℕ) → length (last sha256 c) ≡ 8
unfolding last last_block Sha256.transform
length-last c = elim (Bool-cases (ltb 56 (used_space sha256 c + 1))) [
  | inl e ↦ rw e refl
  | inr e ↦ rw e refl
]

-- So many bytes.
pub record Bytes (n : ℕ) (out : List ℕ) : Type 0 where
  pub count : length out ≡ n
  pub bytes : All IsByte out

sha256_final-Bytes : (c : Context ℕ) → Bytes 32 (sha256_final c)
unfolding sha256_final final
sha256_final-Bytes c = record {
  count =
      length-store_words 4 (map sha256.reverse (last sha256 c))
      ∙ ap (λ (n : ℕ). n * 4) (length-map (last sha256 c) sha256.reverse ∙ length-last c);
  bytes = store_words-IsByte 4 (map sha256.reverse (last sha256 c));
}

-- The five words of the state of RIPEMD-160.
abbrev Five : Ripemd160Context → Type 0
Five ctx = length ctx.state ≡ 5

if-Five : (b : Bool) (x y : Ripemd160Context) → Five x → Five y → Five (if b then x else y)
if-Five true x y h k = h
if-Five false x y h k = k

process_block-Five : (bytes : List ℕ) (ctx : Ripemd160Context) → Five (process_block bytes ctx)
unfolding process_block ripemd160_process combine
process_block-Five bytes ctx = refl

whole_blocks-Five :
    (fuel left : ℕ) (input : List ℕ) (ctx : Ripemd160Context)
    → Five ctx
    → Five (whole_blocks fuel left input ctx)
unfolding whole_blocks fill_buffer
whole_blocks-Five zero left input ctx h = if-Five (ltb 0 (length input)) _ _ h h
whole_blocks-Five (suc fuel) left input ctx h =
    whole_blocks-Five fuel left (drop 64 input) _ (process_block-Five (take 64 input) ctx)

ripemd160_update-Five :
    (ctx : Ripemd160Context) (input : List ℕ) → Five ctx → Five (ripemd160_update ctx input)
unfolding ripemd160_update count_bytes
ripemd160_update-Five ctx input h = if-Five (length input == 0) _ _ h (
    if-Five _ _ _ (whole_blocks-Five _ 0 _ _ (process_block-Five _ _))
      (whole_blocks-Five _ _ input _ h))

pub ripemd160-Bytes : (msg : List ℕ) → Bytes 20 (ripemd160 msg)
unfolding ripemd160 ripemd160_final ripemd160_init
ripemd160-Bytes msg =
    let five =
      ripemd160_update-Five _ _
        (ripemd160_update-Five _ _ (ripemd160_update-Five ripemd160_init msg refl)) in
    record {
      count = length-store_words 4 _ ∙ ap (λ (n : ℕ). n * 4) five;
      bytes = store_words-IsByte 4 _;
    }

finish-Bytes : (type : HasherType) (hash : List ℕ) → Bytes 32 hash → Bytes 32 (finish type hash)
unfolding finish
finish-Bytes hasher_sha2 hash h = h
finish-Bytes hasher_sha2d hash h = sha256_final-Bytes _
finish-Bytes hasher_sha2_ripemd hash h =
    let r = ripemd160-Bytes hash in
    record {
      count = omega (
        arith,
        length-append (ripemd160 hash) (drop 20 hash),
        length-drop 20 hash,
        r.count,
        h.count,
      );
      bytes =
          All-append IsByte (ripemd160 hash) (drop 20 hash) r.bytes (bytes_from 20 hash h.bytes);
    }

-- A digest of `hasher_Final` is 32 bytes.
pub hasher_final-Bytes : (hasher : Hasher) → Bytes 32 (hasher_final hasher)
unfolding hasher_final
hasher_final-Bytes hasher = finish-Bytes hasher.type _ (sha256_final-Bytes hasher.ctx)
