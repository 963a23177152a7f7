-- ===== src/Alloc/Reply.antt =====
-- src/mem/ideal_alloc.c: what `alloc_resp` sends and keeps.
use gran.Prelude.{
  ℕ, ◌≡◌, ◌+◌, ◌<◌, inl, inr, true, false, some, List, arith, refl, ap, ◌∙◌, u64, length, get_elem?,
  Bool-cases,
}
use gran.Packet.{Packet, load_le, store_le, response}
use gran.Packet.Create.{copy_bytes-IsWritten, load_le-same, length-store_le}
use gran.Component.{Stat, ok, is_ebusy, Ptr, Env, send}
use gran.Reg.{Reg}
use gran.Tree.{TreeOps}
use gran.Vec.{VecOps}
use gran.Alloc.{
  AllocIfRet, alloc_if_ok, alloc_if_err_space, alloc_if_err_range, code, Region, region_cmp,
  write_reply, Alloc, alloc_resp,
}

-- The fields of a reply, as its receiver reads them.
pub record Decodes (bytes : List ℕ) (resp : AllocIfRet) (start end : ℕ) : Type 0 where
  pub code_field : load_le 4 bytes 0 ≡ some (code resp)
  pub start_field : load_le 8 bytes 8 ≡ some (u64 start)
  pub end_field : load_le 8 bytes 16 ≡ some (u64 end)

load_code : (resp : AllocIfRet) → load_le 4 (store_le 4 (code resp)) 0 ≡ some (code resp)
unfolding load_le store_le
load_code alloc_if_ok = refl
load_code alloc_if_err_space = refl
load_code alloc_if_err_range = refl

load_word : (v : ℕ) → load_le 8 (store_le 8 v) 0 ≡ some (u64 v)
unfolding load_le store_le
load_word v = ap some (omega arith)

-- What was written at place `i`, with `n` bytes, is read back after later writes elsewhere.
field_back :
    (n i v : ℕ) (src : List ℕ) (bytes : List ℕ)
    → ((j : ℕ) → j < n → get_elem? bytes (i + j) ≡ get_elem? src j)
    → load_le n src 0 ≡ some v
    → load_le n bytes i ≡ some v
field_back n i v src bytes h k =
    load_le-same n i 0 bytes src (λ j p. h j p ∙ ap (get_elem? src) (omega arith)) ∙ k

pub write_reply-Decodes :
    (resp : AllocIfRet) (start end : ℕ) (bytes : List ℕ)
    → length bytes ≡ 64
    → (out : List ℕ) × (write_reply resp start end bytes ≡ some out) × Decodes out resp start end
unfolding write_reply
write_reply-Decodes resp start end bytes h =
    let (b0, runs0, w0) =
      copy_bytes-IsWritten 4 0 (store_le 4 (code resp)) bytes
        (omega (arith, length-store_le 4 (code resp))) (omega arith) in
    let (b1, runs1, w1) =
      copy_bytes-IsWritten 8 8 (store_le 8 start) b0 (omega (arith, length-store_le 8 start))
        (omega (arith, w0.same_length)) in
    let (b2, runs2, w2) =
      copy_bytes-IsWritten 8 16 (store_le 8 end) b1 (omega (arith, length-store_le 8 end))
        (omega (arith, w0.same_length, w1.same_length)) in
    (
      b2,
      rw (runs0, runs1, runs2) refl,
      record {
        code_field =
            field_back 4 0 (code resp) (store_le 4 (code resp)) b2
              (λ j p.
                w2.outside (0 + j) (inl (omega arith))
                ∙ w1.outside (0 + j) (inl (omega arith))
                ∙ w0.inside j p)
              (load_code resp);
        start_field =
            field_back 8 8 (u64 start) (store_le 8 start) b2
              (λ j p. w2.outside (8 + j) (inl (omega arith)) ∙ w1.inside j p) (load_word start);
        end_field = field_back 8 16 (u64 end) (store_le 8 end) b2 w2.inside (load_word end);
      },
    )

module _ (T : TreeOps Region region_cmp) (V : VecOps (T.Tree)) (e : Env) where
  open e use {Rest}

  -- One reply was sent: the allocator is free for the next request, and it keeps the reply exactly if the
  -- receiver was busy.
  pub record Replied (pkt : Packet) (out_reg : Reg) (to : Ptr) (resp : AllocIfRet)
      (start end self : ℕ) (rest : Rest) (a' : Alloc T V) (rest' : Rest) : Type 0 where
    pub reply : Packet
    pub status : Stat
    pub decodes : Decodes reply.payload resp start end
    pub from_to : (reply.from ≡ pkt.to) × (reply.to ≡ pkt.from)
    pub sent : send e self to reply rest ≡ some (status, rest')
    pub kept : is_ebusy status ≡ true → a'.out_reg ≡ record { pkt = reply; busy = true }
    pub not_kept : is_ebusy status ≡ false → a'.out_reg ≡ out_reg
    pub free : a'.in_reg.busy ≡ false

  pub alloc_resp-Replied :
      (self : ℕ) (a : Alloc T V) (resp : AllocIfRet) (start end : ℕ) (rest : Rest)
      → length a.in_reg.pkt.payload ≡ 64
      → ((pkt : Packet) → (o : Stat × Rest) × (send e self a.send_to pkt rest ≡ some o))
      → (ret : Stat) × (a' : Alloc T V) × (rest' : Rest) × (alloc_resp T V e self a resp start end
            rest
          ≡ some (ret, a', rest'))
        × (a'.spaces ≡ a.spaces)
        × Replied a.in_reg.pkt a.out_reg a.send_to resp start end self rest a' rest'
  unfolding alloc_resp
  alloc_resp-Replied self a resp start end rest full answers =
      let (bytes, written, decodes) =
        write_reply-Decodes resp start end a.in_reg.pkt.payload full in
      let reply : Packet = record (response a.in_reg.pkt) { payload = bytes } in
      let ((status, rest'), sent) = answers reply in
      elim (Bool-cases (is_ebusy status)) [
        | inl busy ↦ (
          ok,
          record a {
            in_reg = record a.in_reg { busy = false };
            out_reg = record { pkt = reply; busy = true };
          },
          rest',
          rw (written, sent, busy) refl,
          refl,
          record {
            reply = reply;
            status = status;
            decodes = decodes;
            from_to = (refl, refl);
            sent = sent;
            kept = λ b. refl;
            not_kept = λ b. cc;
            free = refl;
          },
        )
        | inr free ↦ (
          status,
          record a { in_reg = record a.in_reg { busy = false } },
          rest',
          rw (written, sent, free) refl,
          refl,
          record {
            reply = reply;
            status = status;
            decodes = decodes;
            from_to = (refl, refl);
            sent = sent;
            kept = λ b. cc;
            not_kept = λ b. refl;
            free = refl;
          },
        )
      ]
