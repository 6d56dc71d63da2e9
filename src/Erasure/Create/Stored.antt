-- ===== src/Erasure/Create/Stored.antt =====
-- What `erasureCreateFile` of cmd/erasure-createfile.go leaves on the disks where no append fails.
use minio.Base.{
  ℕ, zero, suc, ◌+◌, ◌≤◌, ◌<◌, ◌≡◌, refl, sym, ap, ap₂, ◌∙◌, true, false, ◌&&◌, List, [], ◌∷◌, ◌++◌,
  Option, if_pos, if_neg, none, some, arith, ltb, ◌==◌, length, take, drop, replicate,
  length-replicate, length-drop, length-take, Bool-cases, inl, inr,
}
use mathlib.Core.Path.{subst}
use minio.Quorum.{errors_cause, is_err_ignored, is_disk_quorum}
use minio.Quorum.Majority.{votes, voters, IsShuffle, reduce_quorum_errs-agreed, is_disk_quorum_iff}
use minio.Erasure.{Bytes, get_chunk_size}
use minio.Erasure.Shards.{
  grow, length-grow, grow-zip_append, grow-replicate, Sizes, shard_files_of, shard_files, Fills,
  shard_files-Fills, Fills-drop, length-shard_files_of,
}
use minio.Erasure.Create.Hashes.{Matches, Fresh, erasure_create_file-Matches}
use minio.Erasure.Create.{
  at_eof, Files, Created, Environment, encode_data, append_all, append_file, at_end, create_blocks,
  erasure_create_file, finish,
}

module _ {E : Type 0} (env : Environment E) where
  -- Values that are nil are not ignored, and all agree.
  causes_of_nils : (n : ℕ) → errors_cause {E = E} (replicate n none) ≡ replicate n none
  unfolding errors_cause
  causes_of_nils zero = refl
  causes_of_nils (suc n) = ap (◌∷◌ none) (causes_of_nils n)

  nil_kept : (ignored : List E) → is_err_ignored env.same_error none ignored ≡ false
  unfolding is_err_ignored
  nil_kept [] = refl
  nil_kept (e ∷ ignored) =
      if_neg (env.same_error (some e) none) (λ p. absurd (cc)) true
        (is_err_ignored env.same_error none ignored)
      ∙ nil_kept ignored

  voters_of_nils : (n : ℕ) (ignored : List E) → voters env.same_error (replicate n none) ignored ≡ n
  unfolding voters
  voters_of_nils zero ignored = refl
  voters_of_nils (suc n) ignored =
      rw (nil_kept ignored, voters) (omega (arith, voters_of_nils n ignored))

  votes_of_nils :
      (n : ℕ) (ignored : List E) → votes env.same_error none (replicate n none) ignored ≡ n
  unfolding votes
  votes_of_nils zero ignored = refl
  votes_of_nils (suc n) ignored =
      let one : ℕ = 1 in
      rw (nil_kept ignored, if_pos (env.same_error none none) refl one 0, votes)
        (omega (arith, votes_of_nils n ignored))

  module _ (lasting : (i : ℕ) (f b : Bytes) → env.append_fails i f b ≡ none) where
    append_all-grow :
        (i : ℕ) (files : Files) (hashed blocks : List Bytes)
        → length hashed ≡ length files
        → length blocks ≡ length files
        → ((append_all env i files hashed blocks).0 ≡ grow files blocks)
          × (length (append_all env i files hashed blocks).1 ≡ length files)
          × ((append_all env i files hashed blocks).2 ≡ replicate (length files) none)
    unfolding append_all
    append_all-grow i [] [] [] h k = (refl, refl, refl)
    append_all-grow i [] [] (_ ∷ blocks) h k = absurd (omega arith)
    append_all-grow i [] (_ ∷ hashed) blocks h k = absurd (omega arith)
    append_all-grow i (_ ∷ files) [] blocks h k = absurd (omega arith)
    append_all-grow i (_ ∷ files) (x ∷ hashed) [] h k = absurd (omega arith)
    append_all-grow i (none ∷ files) (x ∷ hashed) (b ∷ blocks) h k =
        let (f, l, e) = append_all-grow (suc i) files hashed blocks (omega arith) (omega arith) in
        (ap (◌∷◌ none) f, ap suc l, ap (◌∷◌ none) e)
    append_all-grow i (some g ∷ files) (x ∷ hashed) (b ∷ blocks) h k =
        let (f, l, e) = append_all-grow (suc i) files hashed blocks (omega arith) (omega arith) in
        rw (lasting i g b, append_all) (ap (◌∷◌ (some (g ++ b))) f, ap suc l, ap (◌∷◌ none) e)

    module _ (fair : IsShuffle env.same_error env.shuffle) (n quorum : ℕ)
        (most : n < quorum + quorum) (enough : quorum ≤ n) where
      -- With every append done, `appendFile` returns nil.
      append_file-grow :
          (files : Files) (hashed blocks : List Bytes)
          → length files ≡ n
          → length hashed ≡ n
          → length blocks ≡ n
          → ((append_file env files hashed blocks quorum).0 ≡ grow files blocks)
            × (length (append_file env files hashed blocks quorum).1 ≡ n)
            × ((append_file env files hashed blocks quorum).2 ≡ none)
      unfolding append_file
      append_file-grow files hashed blocks f h k =
          let (g, l, e) = append_all-grow 0 files hashed blocks (omega arith) (omega arith) in
          let nils : errors_cause (append_all env 0 files hashed blocks).2 ≡ replicate n none =
            ap errors_cause e ∙ (ap (λ m. errors_cause (replicate m none)) f ∙ causes_of_nils n) in
          let ignored = env.object_op_ignored_errs in
          let there =
            subst (λ c. n ≡ voters env.same_error c env.quorum_ignored_errs) (sym nils)
              (sym (voters_of_nils n env.quorum_ignored_errs)) in
          let all =
            subst (λ c. n ≡ voters env.same_error c ignored) (sym nils)
              (sym (voters_of_nils n ignored)) in
          let agreed =
            subst (λ c. n ≡ votes env.same_error none c ignored) (sym nils)
              (sym (votes_of_nils n ignored)) in
          let ok : is_disk_quorum env.same_error (append_all env 0 files hashed blocks).2
                env.quorum_ignored_errs quorum
              ≡ true =
            (is_disk_quorum_iff env.same_error (append_all env 0 files hashed blocks).2
                env.quorum_ignored_errs quorum).1
              (omega arith) in
          (
            g,
            omega arith,
            rw ok (
                reduce_quorum_errs-agreed env.same_error env.shuffle fair
                  (append_all env 0 files hashed blocks).2 ignored none quorum
                  env.err_xl_write_quorum (omega arith) (omega arith)),
          )

      module _ (shards : Bytes → List Bytes) (d bs : ℕ) (some_data : 0 < d)
          (sizes : Sizes shards d n) (some_size : 0 < bs)
          (encodes : (b : Bytes) → 0 < length b → encode_data env b ≡ some (shards b)) where
        at_end-grow :
            (files : Files) (hashed : List Bytes) (w : ℕ)
            → length files ≡ n
            → length hashed ≡ n
            → (hs : List Bytes) × (at_end env at_eof files hashed w quorum
                ≡ finish env (grow files (replicate n [])) hs w)
        unfolding at_end
        at_end-grow files hashed w f h =
            let (g, l, e) =
              append_file-grow files hashed (replicate (length files) []) f h
                (length-replicate (length files) [] ∙ f) in
            elim (Bool-cases (w == 0)) [
              | inl t ↦ (
                (append_file env files hashed (replicate (length files) []) quorum).1,
                rw (t, e, g)
                    (ap
                      (λ m.
                        finish env (grow files (replicate m []))
                          (append_file env files hashed (replicate (length files) []) quorum).1 w)
                      f),
              )
              | inr t ↦
                  (hashed, rw t (ap (λ x. finish env x hashed w) (sym (grow-replicate files n f))))
            ]

        create_blocks-grow :
            (fuel blocks : ℕ) (stream : Bytes) (files : Files) (hashed : List Bytes) (w : ℕ)
            → length stream < fuel
            → Fills shards bs n blocks stream
            → length files ≡ n
            → length hashed ≡ n
            → (hs : List Bytes) × (create_blocks env fuel stream at_eof bs files hashed w quorum
                ≡ some (
                    finish env
                      (grow files (shard_files_of shards bs n blocks stream))
                      hs
                      (w + length stream)))
        unfolding create_blocks
        create_blocks-grow zero blocks stream files hashed w l b f h = absurd (omega arith)
        create_blocks-grow (suc fuel) (suc blocks) [] files hashed w l b f h =
            absurd (omega (arith, b.1))
        create_blocks-grow (suc fuel) zero (x ∷ s) files hashed w l b f h =
            absurd (omega (arith, b.0))
        create_blocks-grow (suc fuel) zero [] files hashed w l b f h =
            let (hs, e) = at_end-grow files hashed w f h in
            (hs, ap some (e ∙ ap (finish env (grow files (replicate n [])) hs) (omega arith)))
        create_blocks-grow (suc fuel) (suc blocks) (x ∷ s) files hashed w l b f h =
            let stream = x ∷ s in
            let whole : (ltb (length stream) bs && false) ≡ false = ground arith in
            let first = take bs stream in
            let sizes_first : length first + length (drop bs stream) ≡ length stream =
              omega (arith, length-take bs stream, length-drop bs stream) in
            let coded = encodes first (omega (arith, length-take bs stream)) in
            let r = append_file env files hashed (shards first) quorum in
            let (g, k, e) = append_file-grow files hashed (shards first) f h (sizes.count first) in
            let (hs, rest) =
              create_blocks-grow fuel blocks (drop bs stream) r.0 r.1 (w + length first)
                (omega (arith, length-drop bs stream))
                (Fills-drop shards bs n blocks stream some_size b)
                (ap length g ∙ (length-grow files (shards first) ∙ f)) k in
            (
              hs,
              rw (whole, coded, e)
                  (rest
                    ∙ ap some (
                        ap₂ (λ x m. finish env x hs m)
                          (ap (λ t. grow t (shard_files_of shards bs n blocks (drop bs stream))) g
                            ∙ grow-zip_append files (shards first)
                                (shard_files_of shards bs n blocks (drop bs stream))
                                (sizes.count first
                                  ∙ sym (
                                      length-shard_files_of shards bs n d some_data sizes blocks
                                        (drop bs stream))))
                          (omega arith))),
            )

        -- Where every append succeeds, blocks have a size, there are data blocks, encodeData gives the
        -- shards of every block, each of the size of a chunk and one for every file, of which the write
        -- quorum is more than half and at most all, and the order of a map keeps its entries,
        -- erasureCreateFile succeeds with the length of a stream that ends, and to every file there is
        -- it has appended its shards of all blocks of the stream in order, and nothing else.
        pub erasure_create_file-shard_files :
            (files : Files) (stream : Bytes)
            → length files ≡ n
            → (hashed : List Bytes) × (erasure_create_file env files stream at_eof bs quorum
                ≡ some (
                    finish env
                      (grow files (shard_files shards bs n stream))
                      hashed
                      (length stream)))
        unfolding erasure_create_file
        erasure_create_file-shard_files files stream f =
            let files' = grow files (shard_files shards bs n stream) in
            let (hs, e) =
              create_blocks-grow (suc (length stream)) (get_chunk_size (length stream) bs) stream
                files (replicate (length files) []) 0 (omega arith)
                (shard_files-Fills shards bs n stream some_size) f
                (length-replicate (length files) [] ∙ f) in
            (hs, e ∙ ap (λ m. some (finish env files' hs m)) (omega arith))

        -- What a call that returned has left: the grown files and hashes of just them.
        pub created_files :
            (files : Files) (stream : Bytes) (created : Created E)
            → length files ≡ n
            → Fresh files
            → erasure_create_file env files stream at_eof bs quorum ≡ some created
            → (created.files ≡ grow files (shard_files shards bs n stream))
              × Matches created.files created.hashed
        created_files files stream created f fresh done =
            let value : Option (Created E) → Created E =
              λ o. elim o [ none ↦ created | some c ↦ c ] in
            let (hs, e) = erasure_create_file-shard_files files stream f in
            let (c, e', m) =
              erasure_create_file-Matches env (λ i g b r h. let l = lasting i g b in absurd (cc))
                files stream at_eof bs quorum some_size fresh in
            (
              ap (λ c. c.files) (ap value (sym done ∙ e)),
              subst (λ c. Matches c.files c.hashed) (ap value (sym e' ∙ done)) m,
            )
