-- ===== src/Tests/Ciphers.antt =====
-- An encryption that keeps the plain text behind the number of the draw, for blocks of 8 bytes: an
-- instance of the interface of Enclave/Enclave.cpp's `encryptData` and `decryptData`.
use intel_sgx_path_oram.Common.{
  ℕ, ◌≡◌, refl, List, [], ◌∷◌, arith, ◌==◌, if◌then◌else◌, length, replicate, some, ap, Bool-cases,
  inl, inr, ==→eq, eq→==,
}
use intel_sgx_path_oram.Encryption.{Gcm}
use intel_sgx_path_oram.Node.Shape.{IsBuffer}
use intel_sgx_path_oram.Server.{Entry, MemTreeNode, Cipher}

abbrev pub flat : List Entry → List ℕ
flat [] = []
flat (e ∷ es) = e.block_key ∷ e.block_path ∷ e.block_content ∷ e.presence_bit ∷ flat es

abbrev pub entries_of : List ℕ → List Entry
entries_of (k ∷ p ∷ c ∷ b ∷ rest) =
    record { block_key = k; block_path = p; block_content = c; presence_bit = b } ∷ entries_of rest
entries_of _ = []

abbrev pub plain_encrypt_node : ℕ → MemTreeNode → List ℕ
plain_encrypt_node r n = r ∷ n.num_blocks ∷ flat n.entries

abbrev pub plain_decrypt_node : List ℕ → MemTreeNode
plain_decrypt_node (r ∷ num ∷ es) = record { num_blocks = num; entries = entries_of es }
plain_decrypt_node _ = record { num_blocks = 0; entries = [] }

abbrev pub plain_encrypt_block : ℕ → List ℕ → List ℕ
plain_encrypt_block r b = r ∷ b

abbrev pub plain_decrypt_block : List ℕ → List ℕ
plain_decrypt_block [] = replicate 8 0
plain_decrypt_block (r ∷ b) = if length b == 8 then b else replicate 8 0

pub entries_of-flat : (es : List Entry) → entries_of (flat es) ≡ es
entries_of-flat [] = refl
entries_of-flat (e ∷ es) = ap (◌∷◌ e) (entries_of-flat es)

pub zeros-IsBuffer : IsBuffer 8 (replicate 8 0)
zeros-IsBuffer = (omega arith, refl)

pub plain_decrypt_block-IsBuffer : (e : List ℕ) → IsBuffer 8 (plain_decrypt_block e)
plain_decrypt_block-IsBuffer [] = zeros-IsBuffer
plain_decrypt_block-IsBuffer (r ∷ b) = elim (Bool-cases (length b == 8)) [
  | inl whole ↦ rw whole (omega arith, ==→eq _ 8 whole)
  | inr partial ↦ rw partial zeros-IsBuffer
]

abbrev pub plain_cipher : Cipher 8
plain_cipher = record {
  size_fits = omega arith;
  encrypt_node = plain_encrypt_node;
  decrypt_node = plain_decrypt_node;
  encrypt_block = plain_encrypt_block;
  decrypt_block = plain_decrypt_block;
  decrypt_block-IsBuffer = plain_decrypt_block-IsBuffer;
  decrypt-encrypt_node = λ r n h.
      ap (λ es. record { num_blocks = n.num_blocks; entries = es }) (entries_of-flat n.entries);
  decrypt-encrypt_block = λ r b h. rw (eq→== (length b) 8 h.1) refl;
}

-- Sealing without secrecy: the text itself, with a tag of sixteen zeros.
abbrev pub plain_gcm : Gcm
plain_gcm = record {
  encrypt = λ iv text. record { tag = replicate 16 0; text = text };
  decrypt = λ iv s. some s.text;
  length-text = λ iv text. refl;
  length-tag = λ iv text. refl;
  decrypt-encrypt = λ iv text. refl;
}
