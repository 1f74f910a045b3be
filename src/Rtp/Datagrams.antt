-- ===== src/Rtp/Datagrams.antt =====
-- rtp_read_dispatch, interpret_rr and interpret_sdes of ze_rtp_server_core.c: what is read of a
-- datagram, in the memory that it is read from.
pub mod Reports
use ze_sense_server.Prelude.{
  ℕ, zero, suc, ◌+◌, ◌-◌, ◌*◌, ◌%◌, ◌^◌, ◌==◌, ltb, ◌&&◌, ◌||◌, not, Bool, true, false,
  if◌then◌else◌, List, [], ◌∷◌, ◌++◌, length, get_or, Option, none, some,
}
use ze_sense_server.Prelude.Result.{Result, ok, fault, null_pointer, out_of_bounds, ◌>>=◌, read}
use ze_sense_server.Encode.{overwrite}
use ze_sense_server.Root.{minus_one}

abbrev pub rtcp_max_length : ℕ
rtcp_max_length = 100

abbrev pub rtp_default_version : ℕ
rtp_default_version = 2

-- The fields of the first four bytes of `rtcp_hdr_t` and `rtcp_sdes_t`; `count` is `rc` or `sc`.
pub record Head : Type 0 where
  pub version : ℕ
  pub count : ℕ
  pub ptype : ℕ
  pub length : ℕ

-- The layout of the structures of libzertp: their sizes, how a compiler reads the bit fields of the
-- first four bytes, and the `length` of the two bytes of an item.
pub record Layout : Type 0 where
  pub sizeof_rtcp_hdr : ℕ
  pub sizeof_rtcp_rr : ℕ
  pub sizeof_rtcp_sdes : ℕ
  pub sizeof_rtcp_itemhead : ℕ
  pub head : List ℕ → Head
  pub item_length : List ℕ → ℕ

-- What the surroundings answer: the three allocations, and the address of the literal that is
-- passed to `memset` for a byte.
pub record Answers : Type 0 where
  pub rr_allocated : Bool
  pub sdes_allocated : Bool
  pub cname_allocated : Bool
  pub literal : ℕ

-- The bytes from a place on; one that is not there is out of bounds.
unfoldable pub slice : List ℕ → (offset n : ℕ) → Result (List ℕ)
slice xs zero zero = ok []
slice [] zero (suc n) = fault out_of_bounds
slice (x ∷ xs) zero (suc n) = do rest ← slice xs zero n; ok (x ∷ rest)
slice [] (suc offset) n = fault out_of_bounds
slice (x ∷ xs) (suc offset) n = slice xs offset n

-- Whether a string ends within its memory.
abbrev pub terminated : List ℕ → Bool
terminated [] = false
terminated (c ∷ s) = c == 0 || terminated s

module _ (l : Layout) where
  open l use {sizeof_rtcp_hdr, sizeof_rtcp_rr, sizeof_rtcp_sdes, sizeof_rtcp_itemhead, item_length}

  unfoldable pub head_at : List ℕ → (offset : ℕ) → Result Head
  head_at xs offset = do bytes ← slice xs offset 4; ok (l.head bytes)

  -- The fields are only logged. The sum is one of pointers to `rtcp_rr_t`.
  unfoldable pub interpret_rr : (chunk : List ℕ) → Result ℕ
  interpret_rr chunk = do
    hdr ← head_at chunk 0
    ssrc ← slice chunk 4 4
    if ltb 1 hdr.count
        then ok minus_one
        else (do rr ← slice chunk (sizeof_rtcp_hdr * sizeof_rtcp_rr) sizeof_rtcp_rr; ok 0)

  -- The fields and the name are only logged. The sums are of pointers to `rtcp_sdes_t` and to
  -- `rtcp_itemhead_t`, and the byte behind the name is the low one of an address.
  unfoldable pub interpret_sdes : Answers → (chunk : List ℕ) → Result ℕ
  interpret_sdes h chunk = do
    hdr ← head_at chunk 0
    if ltb 1 hdr.count then ok minus_one else (do
      ssrc ← slice chunk (sizeof_rtcp_sdes * sizeof_rtcp_sdes) 4
      let item = (sizeof_rtcp_sdes + 4) * sizeof_rtcp_sdes
      bytes ← slice chunk item 2
      name ← slice chunk (item + sizeof_rtcp_itemhead * sizeof_rtcp_itemhead) (item_length bytes)
      if not h.cname_allocated
          then fault null_pointer
          else if terminated (name ++ h.literal % 256 ∷ [])
          then ok 0
          else fault out_of_bounds)

  -- The description behind the report, where its header is one.
  unfoldable pub dispatch_sdes : Answers → (buf : List ℕ) → (rrlength : ℕ) → Head → Result ℕ
  dispatch_sdes h buf rrlength sdes =
      if not (sdes.version == rtp_default_version) || not (sdes.ptype == 202)
      then ok minus_one
      else if not h.rr_allocated
      then ok minus_one
      else (do
        rr ← slice buf 0 rrlength
        r ← interpret_rr rr
        if not h.sdes_allocated then ok minus_one else (do
          chunk ← slice buf (rrlength * sizeof_rtcp_hdr) ((sdes.length + 1) * 4)
          s ← interpret_sdes h chunk
          ok 0))

  -- The report at the start of the buffer. `sdestemp` is a sum of a pointer to `rtcp_hdr_t`.
  unfoldable pub dispatch_report : Answers → (buf : List ℕ) → Result ℕ
  dispatch_report h buf = do
    rr ← head_at buf 0
    if not (rr.version == rtp_default_version) || not (rr.ptype == 201) then ok minus_one else (do
      sdes ← head_at buf ((rr.length + 1) * 4 * sizeof_rtcp_hdr)
      dispatch_sdes h buf ((rr.length + 1) * 4) sdes)

  -- The static buffer with what `recvfrom` has written to its start, `none` for an error. The result
  -- is 2 for the datagram that starts a session.
  unfoldable pub rtp_read_dispatch :
      Answers → (buf : List ℕ) → Option (List ℕ) → Result (ℕ × List ℕ)
  rtp_read_dispatch h buf none = ok (minus_one, buf)
  rtp_read_dispatch h buf (some []) = ok (minus_one, buf)
  rtp_read_dispatch h buf (some (c ∷ cs)) = do
    buf' ← overwrite buf (c ∷ cs)
    if c == 15 && length (c ∷ cs) == 1
        then ok (2, buf')
        else (do r ← dispatch_report h buf'; ok (r, buf'))
