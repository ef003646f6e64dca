-- ===== src/Client/DownloadEntries.antt =====
-- `download_path` on the entries of one node: the stash and the scratch buffers.
use intel_sgx_path_oram.Common.{
  ℕ, zero, suc, ◌+◌, ◌%◌, ◌^◌, ◌≤◌, ◌<◌, ◌≡◌, refl, List, [], ◌∷◌, ◌++◌, arith, ◌==◌, length,
  length_perm, length-append, length-set, All, false, Bool-cases, inl, inr, ◌∙◌, ap, sym, ==→ne,
  ==→eq, Perm, some, set,
}
use intel_sgx_path_oram.Node.{Node, Block}
use intel_sgx_path_oram.Node.Shape.{IsBuffer, IsBlock, IsNode}
use intel_sgx_path_oram.Server.{Entry, IsEntry, Cipher, Server}
use intel_sgx_path_oram.Client.{
  Client, store_loop, download_entry, download_entries, client_max_path,
}
use intel_sgx_path_oram.Client.Stash.{stash_blocks, store_loop_keyless, store_loop_lem, IsStored}
use intel_sgx_path_oram.Client.Shape.{IsClient, stash_slots}
use intel_sgx_path_oram.Client.Tree.{entry_block, entry_blocks}
use mathlib.Core.Path.{subst}
use mathlib.Core.List.Perm
use mathlib.Core.List.{append_assoc, perm_append_comm}

All-set {ℓ κ} :
    {A : Type ℓ} (P : A → Type κ) (xs : List A) (i : ℕ) (v : A)
    → All P xs
    → P v
    → All P (set xs i v)
All-set P [] i v h hv = h
All-set P (x ∷ xs) zero v h hv = (hv, h.1)
All-set P (x ∷ xs) (suc i) v h hv = (h.0, All-set P xs i v h.1 hv)

-- From the client `c` to `c'`: the blocks `bs` have joined the stash, and all else is as it was,
-- but for the scratch buffers and the addresses.
pub record Joined (size : ℕ) (bs : List Block) (c c' : Client) : Type 0 where
  pub client : IsClient size c'
  pub contents : Perm (stash_blocks c'.path) (bs ++ stash_blocks c.path)
  pub same_mm : c'.path_mm ≡ c.path_mm

-- The addresses of the encrypted buffers are as they were.
abbrev pub SameRows : Client → Client → Type 0
SameRows c c' = c'.encrypted_data_addr_in_path ≡ c.encrypted_data_addr_in_path

pub Joined-nil : (size : ℕ) (c : Client) → IsClient size c → Joined size [] c c
Joined-nil size c h = record { client = h; contents = Perm.refl _; same_mm = refl }

pub Joined-trans :
    (size : ℕ) (xs ys : List Block) (c c' c'' : Client)
    → Joined size xs c c'
    → Joined size ys c' c''
    → Joined size (xs ++ ys) c c''
Joined-trans size xs ys c c' c'' p q = record {
  client = q.client;
  contents = Perm.trans q.contents (Perm.trans (Perm.append_left ys p.contents) regrouped);
  same_mm = q.same_mm ∙ p.same_mm;
}
  where
    regrouped : Perm (ys ++ (xs ++ stash_blocks c.path)) ((xs ++ ys) ++ stash_blocks c.path)
    regrouped =
        rw (sym (append_assoc ys xs (stash_blocks c.path)))
          (Perm.append_right (stash_blocks c.path) (perm_append_comm ys xs))

module _ {size : ℕ} (cipher : Cipher size) (server : Server) where
  open cipher use {decrypt_node, decrypt_block}

  entry-IsBlock : (e : Entry) → IsEntry e → IsBlock size (entry_block cipher server e)
  entry-IsBlock e h = record {
    key_fits = h.key_fits;
    path_fits = h.path_fits;
    buffer = cipher.decrypt_block-IsBuffer (server.memory e.block_content);
  }

  -- The client once a block has been stored or not.
  pub joined_client : Client → List Node → ℕ → Entry → Client
  joined_client c path load e = record c {
    path = path;
    temp_block_content = set c.temp_block_content 0 (decrypt_block (server.memory e.block_content));
    stash_load = load;
  }

  pub joined_client-IsClient :
      (c : Client) (path : List Node) (load : ℕ) (e : Entry)
      → IsClient size c
      → All (IsNode size) path
      → length path ≡ client_max_path
      → load ≡ length (stash_blocks path)
      → IsClient size (joined_client c path load e)
  unfolding joined_client
  joined_client-IsClient c path load e h good twenty loaded = record {
    stash = good;
    twenty = twenty;
    loaded = loaded;
    buffers =
        All-set (IsBuffer size) c.temp_block_content 0 _ h.buffers
          (cipher.decrypt_block-IsBuffer (server.memory e.block_content));
    four = length-set c.temp_block_content 0 _ ∙ h.four;
    rows = h.rows;
    dummy = h.dummy;
  }

  -- One entry: an empty one changes nothing in the stash, another one's block goes into it.
  pub download_entry_lem :
      (e : Entry) (c : Client)
      → IsEntry e
      → IsClient size c
      → length (entry_blocks cipher server (e ∷ [])) + length (stash_blocks c.path) ≤ stash_slots
      → (c' : Client) × (download_entry cipher server e c ≡ some c')
        × Joined size (entry_blocks cipher server (e ∷ [])) c c'
        × SameRows c c'
  unfolding download_entry joined_client
  download_entry_lem e c he h room = elim (Bool-cases (e.block_key == 0)) [
    | inl none_here ↦ (
      joined_client c c.path c.stash_load e,
      rw (
        none_here,
        store_loop_keyless size e.block_content (entry_block cipher server e) c.path
            (==→eq _ 0 none_here) h.stash,
      ),
      rw none_here (record {
        client = joined_client-IsClient c c.path c.stash_load e h h.stash h.twenty h.loaded;
        contents = Perm.refl _;
        same_mm = refl;
      }),
      refl,
    )
    | inr here ↦
        let st = stored here in
        (
          joined_client c
              (store_loop false e.block_content (entry_block cipher server e) size c.path).path
              ((c.stash_load + 1) % 2 ^ 32) e,
          rw (here, st.stored),
          rw here (record {
            client =
                joined_client-IsClient c _ _ e h st.shape (st.same_length ∙ h.twenty)
                  (omega (arith, h.loaded, length_perm st.contents, fits here));
            contents = st.contents;
            same_mm = refl;
          }),
          refl,
        )
  ]
    where
      fits : (e.block_key == 0) ≡ false → length (stash_blocks c.path) < stash_slots
      fits here = ground (arith, here)

      stored :
          (e.block_key == 0) ≡ false
          → IsStored size
              (entry_block cipher server e)
              c.path
              (store_loop false e.block_content (entry_block cipher server e) size c.path)
      stored here =
          store_loop_lem size e.block_content (entry_block cipher server e) c.path (==→ne _ 0 here)
            (entry-IsBlock e he) h.stash (omega (arith, fits here, h.twenty))

  entry_blocks-cons :
      (e : Entry) (es : List Entry)
      → entry_blocks cipher server (e ∷ []) ++ entry_blocks cipher server es
        ≡ entry_blocks cipher server (e ∷ es)
  entry_blocks-cons e es = ground arith

  pub download_entries_lem :
      (es : List Entry) (c : Client)
      → All IsEntry es
      → IsClient size c
      → length (entry_blocks cipher server es) + length (stash_blocks c.path) ≤ stash_slots
      → (c' : Client) × (download_entries cipher server es c ≡ some c')
        × Joined size (entry_blocks cipher server es) c c'
        × SameRows c c'
  unfolding download_entries
  download_entries_lem [] c he h room = (c, refl, Joined-nil size c h, refl)
  download_entries_lem (e ∷ es) c he h room =
      let here = entry_blocks cipher server (e ∷ []) in
      let later = entry_blocks cipher server es in
      let parts : length (entry_blocks cipher server (e ∷ es)) ≡ length here + length later =
        ap length (sym (entry_blocks-cons e es)) ∙ length-append here later in
      let (c', runs, joined, rows) = download_entry_lem e c he.0 h (omega (arith, parts)) in
      let size' : length (stash_blocks c'.path) ≡ length here + length (stash_blocks c.path) =
        length_perm joined.contents ∙ length-append here (stash_blocks c.path) in
      let (c'', runs', joined', rows') =
        download_entries_lem es c' he.1 joined.client (omega (arith, parts, size')) in
      (
        c'',
        rw runs runs',
        subst (λ bs. Joined size bs c c'') (entry_blocks-cons e es)
            (Joined-trans size here later c c' c'' joined joined'),
        rows' ∙ rows,
      )
