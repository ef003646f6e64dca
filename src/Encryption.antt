-- ===== src/Encryption.antt =====
-- Enclave/Enclave.cpp, `encryptData` and `decryptData`: a buffer holds the tag (16 bytes), the IV
-- (12 bytes) and the text. Both go through a local buffer of ENC_BUF_LEN bytes; `none` is an access
-- outside it. The AES-GCM calls of the SGX SDK, under the one key of the enclave, are a parameter.
use mathlib.Core.List.{append_assoc}
use intel_sgx_path_oram.Common.{
  ℕ, ◌+◌, ◌-◌, ◌≤◌, ◌≡◌, refl, List, ◌++◌, arith, Option, none, some, leb, length, length-append,
  take-all, take-append, drop-append, take, drop, replicate, if◌then◌else◌, le→leb,
}

abbrev pub mac_size : ℕ
mac_size = 16

abbrev pub iv_size : ℕ
iv_size = 12

abbrev pub enc_buf_len : ℕ
enc_buf_len = 2048

pub record Sealed : Type 0 where
  pub tag : List ℕ
  pub text : List ℕ

-- `sgx_rijndael128GCM_encrypt` and `sgx_rijndael128GCM_decrypt`, as the SDK documents them: the
-- encrypted text is as long as the plain one, the tag has 16 bytes, and what was encrypted under an
-- IV decrypts under it; a tag that does not match gives nothing.
pub record Gcm : Type 0 where
  pub encrypt : List ℕ → List ℕ → Sealed
  pub decrypt : List ℕ → Sealed → Option (List ℕ)
  pub length-text : (iv text : List ℕ) → length (encrypt iv text).text ≡ length text
  pub length-tag : (iv text : List ℕ) → length (encrypt iv text).tag ≡ mac_size
  pub decrypt-encrypt : (iv text : List ℕ) → decrypt iv (encrypt iv text) ≡ some text

-- `p_dest` once `bytes` have been written to its start.
abbrev pub written : List ℕ → List ℕ
written bytes = bytes ++ replicate (enc_buf_len - length bytes) 0

-- What is in the zeroed buffer after a decryption.
abbrev pub decrypted : Option (List ℕ) → List ℕ
decrypted none = replicate enc_buf_len 0
decrypted (some text) = written text

-- `iv` is what `sgx_read_rand` gives.
pub encrypt_data : Gcm → List ℕ → List ℕ → ℕ → Option (List ℕ)
encrypt_data gcm iv dec_data_in len_out =
    let s = gcm.encrypt iv dec_data_in in
    if leb (mac_size + iv_size + length dec_data_in) enc_buf_len
    then (if leb len_out enc_buf_len
        then some (take len_out (written (s.tag ++ iv ++ s.text)))
        else none)
    else none

pub decrypt_data : Gcm → List ℕ → ℕ → Option (List ℕ)
decrypt_data gcm enc_data_in len_out =
    let iv = take iv_size (drop mac_size enc_data_in) in
    let text = take len_out (drop (mac_size + iv_size) enc_data_in) in
    if leb len_out enc_buf_len
    then some (
        take len_out
          (decrypted (gcm.decrypt iv (record { tag = take mac_size enc_data_in; text = text }))))
    else none

-- The parts of a buffer.
module _ (tag iv text : List ℕ) (ht : length tag ≡ mac_size) (hi : length iv ≡ iv_size) where
  abbrev buffer : List ℕ
  buffer = (tag ++ iv) ++ text

  tag_part : take mac_size buffer ≡ tag
  tag_part = rw (append_assoc tag iv text) (take-append mac_size tag (iv ++ text) ht)

  iv_part : take iv_size (drop mac_size buffer) ≡ iv
  iv_part =
      rw (append_assoc tag iv text)
        (rw (drop-append mac_size tag (iv ++ text) ht) (take-append iv_size iv text hi))

  text_part : drop (mac_size + iv_size) buffer ≡ text
  text_part =
      drop-append (mac_size + iv_size) (tag ++ iv) text (omega (arith, length-append tag iv))

-- With a 12-byte IV and a text that fits into the local buffer of 2048 bytes with its tag and IV,
-- and a length 28 bytes above the text's as the callers pass it, `encryptData` gives a buffer of
-- just that length, and `decryptData` gives the text back.
pub decrypt_data-encrypt_data :
    (gcm : Gcm) (iv text : List ℕ)
    → length iv ≡ iv_size
    → mac_size + iv_size + length text ≤ enc_buf_len
    → (e : List ℕ) × (encrypt_data gcm iv text (mac_size + iv_size + length text) ≡ some e)
      × (length e ≡ mac_size + iv_size + length text)
      × (decrypt_data gcm e (length text) ≡ some text)
unfolding encrypt_data decrypt_data
decrypt_data-encrypt_data gcm iv text hi fits = (
  (s.tag ++ iv) ++ s.text,
  rw
      (
        le→leb (mac_size + iv_size + length text) enc_buf_len fits,
        take-append (mac_size + iv_size + length text) ((s.tag ++ iv) ++ s.text)
            (replicate (enc_buf_len - length ((s.tag ++ iv) ++ s.text)) 0) whole,
      )
      refl,
  whole,
  rw
      (
        le→leb (length text) enc_buf_len (omega arith),
        iv_part s.tag iv s.text (gcm.length-tag iv text) hi,
        tag_part s.tag iv s.text (gcm.length-tag iv text) hi,
        text_part s.tag iv s.text (gcm.length-tag iv text) hi,
        take-all (length text) s.text (omega (arith, gcm.length-text iv text)),
        gcm.decrypt-encrypt iv text,
        take-append (length text) text (replicate (enc_buf_len - length text) 0) refl,
      )
      refl,
)
  where
    s : Sealed
    s = gcm.encrypt iv text

    whole : length ((s.tag ++ iv) ++ s.text) ≡ mac_size + iv_size + length text
    whole = omega (
      arith,
      length-append (s.tag ++ iv) s.text,
      length-append s.tag iv,
      gcm.length-text iv text,
      gcm.length-tag iv text,
    )
