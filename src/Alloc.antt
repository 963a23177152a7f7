-- ===== src/Alloc.antt =====
-- src/mem/ideal_alloc.c and include/gran/if/alloc.h: a component that keeps the allocated regions of some
-- address spaces and answers requests for them.
pub mod Answer
pub mod Reply
pub mod Spec
use gran.Prelude.{
  ℕ, zero, suc, ◌*◌, ◌%◌, ◌^◌, Bool, true, false, not, ◌&&◌, Option, none, some, List, ltb, leb,
  ◌==◌, if◌then◌else◌, ◌>>=◌, ◌>>◌, assert, u32,
}
use Prim.Native.Nat.{Ordering}
use gran.Packet.{Packet, response, load_le, store_le, copy_bytes}
use gran.Component.{Stat, ok, ebusy, emem, is_ok, is_ebusy, Ptr, Env, send}
use gran.Reg.{Reg, empty_reg}
use gran.Tree.{TreeOps}
use gran.Vec.{VecOps}

abbrev pub alloc_if_new : ℕ
alloc_if_new = 0x00

abbrev pub alloc_if_rm : ℕ
alloc_if_rm = 0x40

abbrev pub alloc_if_q : ℕ
alloc_if_q = 0x80

pub data AllocIfRet : Type 0 where
  alloc_if_ok alloc_if_err_space alloc_if_err_range : AllocIfRet

abbrev pub code : AllocIfRet → ℕ
code alloc_if_ok = 0
code alloc_if_err_space = 1
code alloc_if_err_range = 2

pub record Region : Type 0 where
  pub start : ℕ
  pub end : ℕ

abbrev pub is_same : Region → Region → Bool
is_same a b = a.start == b.start && a.end == b.end

-- The result is 0, 1 or -1.
unfoldable pub region_cmp : Region → Region → Ordering
region_cmp a b =
    if is_same a b
    then Ordering.eq
    else if ltb b.start a.start
    then Ordering.gt
    else if ltb a.end b.end
    then Ordering.lt
    else Ordering.eq

-- The replies and requests as they lie in the 64 bytes of a packet: the fields have 8 bytes each, but
-- `r` of a reply has 4, and 4 bytes of padding follow it.
unfoldable pub write_reply : AllocIfRet → ℕ → ℕ → List ℕ → Option (List ℕ)
write_reply resp start end bytes = do
  with_r ← copy_bytes 4 0 (store_le 4 (code resp)) bytes
  with_start ← copy_bytes 8 8 (store_le 8 start) with_r
  copy_bytes 8 16 (store_le 8 end) with_start

abbrev pub word_at : Packet → ℕ → Option ℕ
word_at pkt i = load_le 8 pkt.payload (8 * i)

module _ (T : TreeOps Region region_cmp) (V : VecOps (T.Tree)) where
  pub record Alloc : Type 0 where
    pub spaces : V.Vec
    pub max_spaces : ℕ
    pub in_reg : Reg
    pub out_reg : Reg
    pub send_to : Ptr

  -- The loop of `create_ideal_alloc`.
  unfoldable pub append_spaces : ℕ → V.Vec → V.Vec
  append_spaces zero spaces = spaces
  append_spaces (suc left) spaces = append_spaces left (V.append spaces (T.create))

  unfoldable pub create_ideal_alloc : ℕ → Alloc
  create_ideal_alloc max_spaces = record {
    spaces = append_spaces max_spaces (V.create max_spaces);
    max_spaces = max_spaces;
    in_reg = empty_reg;
    out_reg = empty_reg;
    send_to = none;
  }

  abbrev is_null : Ptr → Bool
  is_null none = true
  is_null (some p) = false

  unfoldable pub ideal_alloc_connect : Alloc → Ptr → Option Alloc
  ideal_alloc_connect a to = do assert (is_null a.send_to); some (record a { send_to = to })

  unfoldable pub alloc_receive : Alloc → Packet → Stat × Alloc
  alloc_receive a pkt =
      if a.in_reg.busy
      then (ebusy, a)
      else (ok, record a { in_reg = record { pkt = pkt; busy = true } })

  module _ (e : Env) where
    open e use {Rest}

    unfoldable pub alloc_resp : ℕ → Alloc → AllocIfRet → ℕ → ℕ → Rest → Option (Stat × Alloc × Rest)
    alloc_resp self a resp start end rest = do
      let free : Alloc = record a { in_reg = record a.in_reg { busy = false } }
      bytes ← write_reply resp start end a.in_reg.pkt.payload
      let pkt : Packet = record (response a.in_reg.pkt) { payload = bytes }
      (ret, rest') ← send e self a.send_to pkt rest
      some (
          if is_ebusy ret
          then (ok, record free { out_reg = record { pkt = pkt; busy = true } }, rest')
          else (ret, free, rest'))

    -- The end of `alloc_new`, by what `regions_insert` returned.
    unfoldable pub inserted :
        ℕ → Alloc → Region → Option Region → Rest → Option (Stat × Alloc × Rest)
    inserted self a new none rest = do
      (_, a', rest') ← alloc_resp self a alloc_if_err_range 0 0 rest
      some (emem, a', rest')
    inserted self a new (some r) rest = alloc_resp self a alloc_if_ok new.start new.end rest

    unfoldable pub alloc_new : ℕ → Alloc → Rest → Option (Stat × Alloc × Rest)
    alloc_new self a rest = do
      id ← word_at a.in_reg.pkt 0
      if leb a.max_spaces id then alloc_resp self a alloc_if_err_space 0 0 rest else (do
        space ← V.at a.spaces id
        start ← word_at a.in_reg.pkt 1
        end ← word_at a.in_reg.pkt 2
        let new : Region = record { start = start; end = end }
        let (r, space') = T.insert space new
        inserted self (record a { spaces = V.put a.spaces id space' }) new r rest)

    -- The end of `alloc_rm`, by what `regions_find` returned in the space `id`.
    unfoldable pub removed :
        ℕ → Alloc → ℕ → T.Tree → Option Region → Rest → Option (Stat × Alloc × Rest)
    removed self a id space none rest = alloc_resp self a alloc_if_err_range 0 0 rest
    removed self a id space (some r) rest =
        alloc_resp self (record a { spaces = V.put a.spaces id (T.remove space r) }) alloc_if_ok 0 0
          rest

    unfoldable pub alloc_rm : ℕ → Alloc → Rest → Option (Stat × Alloc × Rest)
    alloc_rm self a rest = do
      id ← word_at a.in_reg.pkt 0
      if leb a.max_spaces id then alloc_resp self a alloc_if_err_space 0 0 rest else (do
        space ← V.at a.spaces id
        start ← word_at a.in_reg.pkt 1
        end ← word_at a.in_reg.pkt 2
        removed self a id space (T.find space (record { start = start; end = end })) rest)

    -- The end of `alloc_q`, by what `regions_find` returned.
    unfoldable pub queried : ℕ → Alloc → Option Region → Rest → Option (Stat × Alloc × Rest)
    queried self a none rest = alloc_resp self a alloc_if_err_range 0 0 rest
    queried self a (some r) rest = alloc_resp self a alloc_if_ok r.start r.end rest

    unfoldable pub alloc_q : ℕ → Alloc → Rest → Option (Stat × Alloc × Rest)
    alloc_q self a rest = do
      id ← word_at a.in_reg.pkt 0
      if leb a.max_spaces id then alloc_resp self a alloc_if_err_space 0 0 rest else (do
        space ← V.at a.spaces id
        addr ← word_at a.in_reg.pkt 1
        queried self a (T.find space (record { start = addr; end = addr })) rest)

    -- The `switch` of `alloc_clock`.
    unfoldable pub alloc_serve : ℕ → Alloc → Rest → Option (Stat × Alloc × Rest)
    alloc_serve self a rest =
        let off = u32 a.in_reg.pkt.to in
        if off == alloc_if_new
        then alloc_new self a rest
        else if off == alloc_if_rm
        then alloc_rm self a rest
        else if off == alloc_if_q
        then alloc_q self a rest
        else some (ok, a, rest)

    unfoldable pub alloc_clock : ℕ → Alloc → Rest → Option (Stat × Alloc × Rest)
    alloc_clock self a rest =
        if not a.in_reg.busy
        then some (ok, a, rest)
        else if not a.out_reg.busy
        then alloc_serve self a rest
        else (do
          (ret, rest') ← send e self a.send_to a.out_reg.pkt rest
          if is_ebusy ret then some (ok, a, rest') else (do
            assert (is_ok ret)
            alloc_serve self (record a { out_reg = record a.out_reg { busy = false } }) rest'))
