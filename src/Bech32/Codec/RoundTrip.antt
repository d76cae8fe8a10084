-- ===== src/Bech32/Codec/RoundTrip.antt =====
-- `decode` gives back what `encode` was given.
use aex_cpp_sdk.Base.{ℕ, ◌+◌, ◌-◌, ◌≤◌, ◌<◌, ◌≡◌, ◌≢◌, refl, ap, ◌∙◌, arith, leb}
use aex_cpp_sdk.Base.{
  List, [], ◌∷◌, ◌++◌, map, length, length-append, length-map, All, All-append, take,
}
use aex_cpp_sdk.Base.{
  take-length-append, drop-suc-length-append, true, false, some, ◌&&◌, not, length-pos_of_ne,
}
use aex_cpp_sdk.Bech32.Charset.{charset_at}
use aex_cpp_sdk.Bech32.Checksum.{create_checksum}
use aex_cpp_sdk.Bech32.Checksum.Verify.{verify_checksum-create_checksum, create_checksum_small}
use aex_cpp_sdk.Bech32.Checksum.Verify.{length-create_checksum}
use aex_cpp_sdk.Bech32.Codec.{encode, decode, decode_at, scan, Scan, rfind}
use aex_cpp_sdk.Bech32.Codec.Scanning.{IsPlain, scan-IsPlain, map-lc-IsPlain, charset-All}
use aex_cpp_sdk.Bech32.Codec.Scanning.{rfind-append, read_values-charset_at}

separator : IsPlain b'1'
separator = omega arith

module _ (hrp values : List ℕ) where
  -- The digits behind the separator.
  abbrev combined : List ℕ
  combined = values ++ create_checksum hrp values

  length-encode : length (encode hrp values) ≡ length hrp + length values + 7
  unfolding encode
  length-encode =
      length-append hrp _
      ∙ omega (
        arith,
        length-map combined charset_at,
        length-append values (create_checksum hrp values),
        length-create_checksum hrp values,
      )

  take-combined : take (length combined - 6) combined ≡ values
  take-combined =
      ap (λ (n : ℕ). take n combined)
        (omega (
          arith,
          length-append values (create_checksum hrp values),
          length-create_checksum hrp values,
        ))
      ∙ take-length-append values (create_checksum hrp values)

  module _ (plain : All IsPlain hrp) (small : All (λ v. v < 32) values) where
    combined-All : All (λ v. v < 32) combined
    combined-All =
        All-append _ values (create_checksum hrp values) small (create_checksum_small hrp values)

    decode_at-encode : decode_at (encode hrp values) (length hrp) ≡ (hrp, values)
    unfolding decode_at encode
    decode_at-encode =
        rw
          (
            drop-suc-length-append hrp b'1' (map charset_at combined),
            take-length-append hrp (b'1' ∷ map charset_at combined),
            read_values-charset_at combined combined-All,
            map-lc-IsPlain hrp plain,
            verify_checksum-create_checksum hrp values,
            take-combined,
          )
          refl

    -- `Bech32::decode` of `Bech32::encode` gives back the human-readable part and the digits, for a
    -- part that is not empty and has no upper-case letter and only printable characters other than the
    -- separator, digits below 32, and a text of at most 90 characters.
    pub decode-encode :
        hrp ≢ [] → length hrp + length values ≤ 83 → decode (encode hrp values) ≡ (hrp, values)
    unfolding decode
    decode-encode named fits = rw (where_it_is, decode, accepted) decode_at-encode
      where
        where_it_is : rfind b'1' (encode hrp values) ≡ some (length hrp)
        where_it_is =
            unfold encode in
            rfind-append b'1' hrp (map charset_at combined) (charset-All combined combined-All).1

        start : Scan
        start = record { lower = false; upper = false; ok = true }

        scanned :
            ((scan start (encode hrp values)).ok ≡ true)
            × ((scan start (encode hrp values)).upper ≡ false)
        scanned =
            unfold encode in
            scan-IsPlain start (encode hrp values)
              (All-append _ hrp _ plain (separator, (charset-All combined combined-All).0)) refl
              refl

        accepted :
            ((scan start (encode hrp values)).ok
                && not (
                    (scan start (encode hrp values)).lower
                    && (scan start (encode hrp values)).upper))
              && (leb (length (encode hrp values)) 90
                  && (leb 1 (length hrp) && leb (length hrp + 7) (length (encode hrp values))))
            ≡ true
        accepted = ground (arith, scanned.0, scanned.1, length-encode, length-pos_of_ne hrp named)
