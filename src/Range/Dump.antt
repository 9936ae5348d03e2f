-- ===== src/Range/Dump.antt =====
-- range.c: range_dump, and geo_dump of geo.c, as the text that is printed.
-- `inet_ntoa` is that of an address in host order.
use Prim.Native.Nat.{bit_or}
use fnsproxy.Base.{ℕ, zero, suc, ◌+◌, ◌-◌, ◌*◌, ◌^◌, [], ◌∷◌, ◌++◌, none, some, length, Text, codes}
use fnsproxy.Vector.{Vector}
use fnsproxy.Range.{Low, Range}

abbrev pub blanks : ℕ → Text
blanks zero = []
blanks (suc n) = b' ' ∷ blanks n

-- `%-16s` and `%-33s`
abbrev pub padded : (width : ℕ) → Text → Text
padded width text = text ++ blanks (width - length text)

module _ (inet_ntoa : ℕ → Text) where
  -- A range of the bucket `i`.
  unfoldable pub row : (i : ℕ) → Low → Text
  row i low =
      padded 16 (inet_ntoa (bit_or (i * 2 ^ 16) low.start))
      ++ (b' '
          ∷ (padded 16 (inet_ntoa (bit_or (i * 2 ^ 16) low.end))
              ++ (b' ' ∷ (inet_ntoa low.ip_addr ++ 10 ∷ []))))

  -- The loop over the ranges of a bucket, with `n` of them left.
  unfoldable pub rows : (n j i : ℕ) → Vector Low → Text
  unfolding row
  rows zero j i v = []
  rows (suc n) j i v = row i (v.cells j) ++ rows n (j + 1) i v

  -- The loop over the buckets, with `n` of them left.
  unfoldable pub dump_from : (n i : ℕ) → Range → Text
  unfolding rows
  dump_from zero i r = []
  dump_from (suc n) i r =
      let rest = dump_from n (i + 1) r in
      elim (r.low i) [ none ↦ rest | some v ↦ rows v.count 0 i v ++ rest ]

  -- `range_dump`
  unfoldable pub dump : Range → Text
  unfolding dump_from
  dump r =
      padded 16 (codes "start")
      ++ (b' '
          ∷ (padded 16 (codes "end")
              ++ (b' '
                  ∷ (codes "ip addr"
                      ++ (10
                          ∷ (codes "============================================="
                              ++ (10
                                  ∷ (padded 33 (codes "default")
                                      ++ (b' '
                                          ∷ (inet_ntoa r.def_ip
                                              ++ (10 ∷ dump_from 0x1_0000 0 r)))))))))))
