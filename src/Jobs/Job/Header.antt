-- ===== src/Jobs/Job/Header.antt =====
-- The bytes of SerializeHeader against Bitcoin's block header.
use not_only_mining_pool.Common.{
  ℕ, zero, suc, ◌+◌, ◌-◌, ◌≤◌, ◌≡◌, refl, sym, ap, subst, ◌∙◌, false, some, List, [], ◌∷◌, ◌++◌,
  reverse, append_assoc, append-nil, Bytes, arith, length, take, drop, replicate, length-append,
  length-replicate, ltb, take-length-append, drop-length-append,
}
use mathlib.Core.List.{reverse-append, reverse-reverse}
use not_only_mining_pool.Common.Fallible.{>>=-some}
use not_only_mining_pool.Utils.Hex.{hex_decode}
use not_only_mining_pool.Utils.Pack.{put_le, pack_uint32_be, pack_uint32_le}
use not_only_mining_pool.Utils.Pack.RoundTrip.{length-put_be, put_be-reverse}
use not_only_mining_pool.Utils.Reverse.{reverse_bytes}
use not_only_mining_pool.Utils.Reverse.Laws.{reverse_bytes-eq-reverse, reverse_bytes_twice}
use not_only_mining_pool.Jobs.Template.{Template}
use not_only_mining_pool.Jobs.Job.{copy_at, serialize_header}

take_all : {A : Type 0} (n : ℕ) (xs : List A) → length xs ≤ n → take n xs ≡ xs
take_all zero [] h = refl
take_all zero (x ∷ xs) h = absurd (omega arith)
take_all (suc n) [] h = refl
take_all (suc n) (x ∷ xs) h = ap (λ t. x ∷ t) (take_all n xs (omega arith))

drop-replicate :
    {A : Type 0} (k n : ℕ) (a : A) {m : ℕ} → n - k ≡ m → drop k (replicate n a) ≡ replicate m a
drop-replicate zero n a {m} e = let same : n ≡ m = omega arith in rw same
drop-replicate (suc k) zero a {m} e = let none_left : 0 ≡ m = omega arith in rw (← none_left)
drop-replicate (suc k) (suc n) a e = drop-replicate k n a (omega arith)

-- A write behind what was written so far.
copy_at_end :
    (pos k : ℕ) (pre src : Bytes)
    → length pre ≡ pos
    → length src ≤ k
    → copy_at pos src (pre ++ replicate k 0) ≡ some ((pre ++ src) ++ replicate (k - length src) 0)
unfolding copy_at
copy_at_end pos k pre src e h =
    let z = replicate {A = ℕ} k 0 in
    let long : ltb (length (pre ++ z)) pos ≡ false = ground (arith, length-append pre z) in
    let before : take pos (pre ++ z) ≡ pre =
      subst (λ p. take p (pre ++ z) ≡ pre) e (take-length-append pre z) in
    let room : drop pos (pre ++ z) ≡ z =
      subst (λ p. drop p (pre ++ z) ≡ z) e (drop-length-append pre z) in
    let whole : take (length z) src ≡ src =
      take_all (length z) src (omega (arith, length-replicate {A = ℕ} k 0)) in
    rw (long, before, room, whole, drop-replicate {A = ℕ} (length src) k 0 refl)
      (ap some (sym (append_assoc pre src (replicate (k - length src) 0))))

-- Bitcoin's header: the version, the previous block, the Merkle root, the time, the bits and the nonce,
-- each turned round from the order in which the pool is given it.
pub bitcoin_header : Template → Bytes → Bytes → Bytes → Bytes
bitcoin_header t merkle_root n_time nonce =
    pack_uint32_le t.version
    ++ (reverse (hex_decode t.previous_block_hash)
        ++ (reverse merkle_root
            ++ (reverse n_time ++ (reverse (hex_decode t.bits) ++ reverse nonce))))

module _ (t : Template) (merkle_root n_time nonce : Bytes)
    (bits_four : length (hex_decode t.bits) ≡ 4)
    (prev_32 : length (hex_decode t.previous_block_hash) ≡ 32) (root_32 : length merkle_root ≡ 32)
    (time_four : length n_time ≡ 4) (nonce_four : length nonce ≡ 4) where
  abbrev bits : Bytes
  bits = hex_decode t.bits

  abbrev prev : Bytes
  prev = hex_decode t.previous_block_hash

  abbrev version : Bytes
  version = pack_uint32_be t.version

  length-version : length version ≡ 4
  unfolding pack_uint32_be
  length-version = length-put_be 4 t.version

  written :
      serialize_header t merkle_root n_time nonce
      ≡ some (reverse_bytes (((((nonce ++ bits) ++ n_time) ++ merkle_root) ++ prev) ++ version))
  unfolding serialize_header
  written =
      let l1 = length nonce in
      let l2 = l1 + length bits in
      let l3 = l2 + length n_time in
      let l4 = l3 + length merkle_root in
      let l5 = l4 + length prev in
      let a2 = length-append nonce bits in
      let a3 = length-append (nonce ++ bits) n_time in
      let a4 = length-append ((nonce ++ bits) ++ n_time) merkle_root in
      let a5 = length-append (((nonce ++ bits) ++ n_time) ++ merkle_root) prev in
      let k1 = 80 - length nonce in
      let k2 = k1 - length bits in
      let k3 = k2 - length n_time in
      let k4 = k3 - length merkle_root in
      let k5 = k4 - length prev in
      let fits : ltb 80 (l5 + 4) ≡ false = ground arith in
      let full : k5 - length version ≡ 0 = omega (arith, length-version) in
      >>=-some _ (copy_at_end 0 80 [] nonce refl (omega arith)) (
        >>=-some _ (copy_at_end l1 k1 nonce bits refl (omega arith)) (
          >>=-some _ (copy_at_end l2 k2 (nonce ++ bits) n_time (omega arith) (omega arith)) (
            >>=-some _
              (copy_at_end l3 k3 ((nonce ++ bits) ++ n_time) merkle_root (omega arith)
                (omega arith))
              (>>=-some _
                (copy_at_end l4 k4 (((nonce ++ bits) ++ n_time) ++ merkle_root) prev (omega arith)
                  (omega arith))
                (rw fits (
                  >>=-some _
                    (copy_at_end l5 k5 ((((nonce ++ bits) ++ n_time) ++ merkle_root) ++ prev)
                      version (omega arith) (omega (arith, length-version)))
                    (rw (full, append-nil))))))))

  reverse-version : reverse version ≡ pack_uint32_le t.version
  unfolding pack_uint32_be pack_uint32_le
  reverse-version = ap reverse (put_be-reverse 4 t.version) ∙ reverse-reverse (put_le 4 t.version)

  turned :
      reverse_bytes (((((nonce ++ bits) ++ n_time) ++ merkle_root) ++ prev) ++ version)
      ≡ bitcoin_header t merkle_root n_time nonce
  unfolding bitcoin_header
  turned =
      reverse_bytes-eq-reverse (((((nonce ++ bits) ++ n_time) ++ merkle_root) ++ prev) ++ version)
      ∙ simp (reverse-append, reverse-version, append_assoc)

  -- From a template whose bits are four bytes and whose previous hash is thirty-two, and a Merkle root, a
  -- time and a nonce of their sizes, SerializeHeader writes the eighty bytes of Bitcoin's header: the
  -- version lowest byte first, and then the previous hash, the root, the time, the bits and the nonce,
  -- each turned round.
  pub serialize_header-eq-bitcoin_header :
      (serialize_header t merkle_root n_time nonce
        ≡ some (bitcoin_header t merkle_root n_time nonce))
      × (length (bitcoin_header t merkle_root n_time nonce) ≡ 80)
  serialize_header-eq-bitcoin_header = (written ∙ ap some turned, ap length (sym turned) ∙ eighty)
    where
      eighty :
          length (reverse_bytes (((((nonce ++ bits) ++ n_time) ++ merkle_root) ++ prev) ++ version))
          ≡ 80
      eighty = omega (
        arith,
        (reverse_bytes_twice (((((nonce ++ bits) ++ n_time) ++ merkle_root) ++ prev) ++ version)).1,
        length-append ((((nonce ++ bits) ++ n_time) ++ merkle_root) ++ prev) version,
        length-append (((nonce ++ bits) ++ n_time) ++ merkle_root) prev,
        length-append ((nonce ++ bits) ++ n_time) merkle_root,
        length-append (nonce ++ bits) n_time,
        length-append nonce bits,
        length-version,
      )
