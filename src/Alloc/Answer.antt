-- ===== src/Alloc/Answer.antt =====
-- src/mem/ideal_alloc.c: how the allocator answers a request.
use gran.Prelude.{
  ℕ, ◌≡◌, ◌<◌, true, false, Option, none, some, List, arith, refl, ap, ◌∙◌, leb, ◌>>=◌, u32, length,
  get_elem?, sym, ◌≢◌, get_elem?-set_ne, get_elem?-set_self, lt_of_get_elem?,
}
use gran.Packet.{Packet}
use gran.Component.{Stat, emem, Env, send}
use gran.Tree.{TreeOps}
use gran.Vec.{VecOps}
use gran.Alloc.Reply.{Replied, alloc_resp-Replied}
use gran.Alloc.{
  AllocIfRet, alloc_if_ok, alloc_if_err_range, Region, region_cmp, word_at, Alloc, alloc_resp,
  inserted, alloc_new, removed, alloc_rm, queried, alloc_q, alloc_serve, alloc_clock,
}
use gran.Alloc.Spec.{
  AllocOp, op_new, op_rm, op_q, op_code, Answers, allocated, not_allocated, freed, not_freed, found,
  not_found, hit-IsNested, nested_address,
}

module _ (T : TreeOps Region region_cmp) (V : VecOps (T.Tree)) (e : Env) where
  open e use {Rest}

  -- A request was served: one reply was sent, which is the answer of the abstract allocator for the regions
  -- of the space, the space holds the regions after it, and the other spaces are as they were.
  pub record Served (a : Alloc T V) (op : AllocOp) (start end id : ℕ) (space : T.Tree) (self : ℕ)
      (rest : Rest) (a' : Alloc T V) (rest' : Rest) : Type 0 where
    pub resp : AllocIfRet
    pub low : ℕ
    pub high : ℕ
    pub after : T.Tree
    pub answers : Answers op start end (T.items space) resp low high (T.items after)
    pub stored : V.at a'.spaces id ≡ some after
    pub others : (j : ℕ) → j ≢ id → V.at a'.spaces j ≡ V.at a.spaces j
    pub replied : Replied T V e a.in_reg.pkt a.out_reg a.send_to resp low high self rest a' rest'

  -- The outcome of a run that serves the request.
  abbrev pub Serves :
      Alloc T V
      → AllocOp
      → ℕ
      → ℕ
      → ℕ
      → T.Tree
      → ℕ
      → Rest
      → Option (Stat × Alloc T V × Rest)
      → Type 0
  Serves a op start end id space self rest run =
      (ret : Stat) × (a' : Alloc T V) × (rest' : Rest) × (run ≡ some (ret, a', rest'))
      × Served a op start end id space self rest a' rest'

  -- The environment answers what the allocator sends.
  abbrev pub IsAnswered : Alloc T V → ℕ → Rest → Type 0
  IsAnswered a self rest =
      (pkt : Packet) → (o : Stat × Rest) × (send e self a.send_to pkt rest ≡ some o)

  module _ (self : ℕ) (a : Alloc T V) (start end id : ℕ) (space : T.Tree) (rest : Rest)
      (full : length a.in_reg.pkt.payload ≡ 64) (there : V.at a.spaces id ≡ some space)
      (answered : IsAnswered a self rest) where
    -- A reply that changes no space.
    unchanged :
        (op : AllocOp) (resp : AllocIfRet) (low high : ℕ)
        → Answers op start end (T.items space) resp low high (T.items space)
        → Serves a op start end id space self rest (alloc_resp T V e self a resp low high rest)
    unchanged op resp low high answer =
        let (ret, a', rest', runs, same, replied) =
          alloc_resp-Replied T V e self a resp low high rest full answered in
        (
          ret,
          a',
          rest',
          runs,
          record {
            resp = resp;
            low = low;
            high = high;
            after = space;
            answers = answer;
            stored = ap (λ (s : V.Vec). V.at s id) same ∙ there;
            others = λ j ne. ap (λ (s : V.Vec). V.at s j) same;
            replied = replied;
          },
        )

    -- A reply after the space was changed.
    changed :
        (op : AllocOp) (resp : AllocIfRet) (low high : ℕ) (after : T.Tree)
        → Answers op start end (T.items space) resp low high (T.items after)
        → Serves a op start end id space self rest (
            alloc_resp T V e self
              (record a { spaces = V.put a.spaces id after })
              resp
              low
              high
              rest)
    changed op resp low high after answer =
        let (ret, a', rest', runs, same, replied) =
          alloc_resp-Replied T V e self (record a { spaces = V.put a.spaces id after }) resp low
            high rest full answered in
        let inside =
          lt_of_get_elem? (V.items a.spaces) id space (sym (V.at-items a.spaces id) ∙ there) in
        (
          ret,
          a',
          rest',
          runs,
          record {
            resp = resp;
            low = low;
            high = high;
            after = after;
            answers = answer;
            stored =
                ap (λ (s : V.Vec). V.at s id) same
                ∙ V.at-items (V.put a.spaces id after) id
                ∙ ap (λ (l : List (T.Tree)). get_elem? l id) (V.items-put a.spaces id after)
                ∙ get_elem?-set_self (V.items a.spaces) id after inside;
            others = λ j ne.
                ap (λ (s : V.Vec). V.at s j) same
                ∙ V.at-items (V.put a.spaces id after) j
                ∙ ap (λ (l : List (T.Tree)). get_elem? l j) (V.items-put a.spaces id after)
                ∙ get_elem?-set_ne (V.items a.spaces) id j after (λ s. ne (sym s))
                ∙ sym (V.at-items a.spaces j);
            replied = replied;
          },
        )

    with_status :
        (op : AllocOp) (status : Stat) (run : Option (Stat × Alloc T V × Rest))
        → Serves a op start end id space self rest run
        → Serves a op start end id space self rest
            (run >>= λ (_, a', rest'). some (status, a', rest'))
    with_status op status run (ret, a', rest', runs, served) =
        (status, a', rest', rw runs refl, served)

    insert_answer :
        (r : Option Region)
        → (T.insert space (record { start = start; end = end })).0 ≡ r
        → Serves a op_new start end id space self rest (
            inserted T V e self
              (record a {
                spaces = V.put a.spaces id (T.insert space (record { start = start; end = end })).1;
              })
              (record { start = start; end = end })
              r
              rest)
    unfolding inserted
    insert_answer none h =
        let after = (T.insert space (record { start = start; end = end })).1 in
        with_status op_new emem _ (
          changed op_new alloc_if_err_range 0 0 after (
            not_allocated start end (T.items space) (T.items after) (
              T.items-insert_none space after (record { start = start; end = end })
                (ap (λ o. (o, after)) h))))
    insert_answer (some r) h =
        let after = (T.insert space (record { start = start; end = end })).1 in
        changed op_new alloc_if_ok start end after (
          allocated start end (T.items space) (T.items after) (
            T.items-insert_some space after (record { start = start; end = end }) r
              (ap (λ o. (o, after)) h)))

    remove_answer :
        (r : Option Region)
        → T.find space (record { start = start; end = end }) ≡ r
        → Serves a op_rm start end id space self rest (removed T V e self a id space r rest)
    unfolding removed
    remove_answer none h =
        unchanged op_rm alloc_if_err_range 0 0 (not_freed start end (T.items space))
    remove_answer (some r) h = changed op_rm alloc_if_ok 0 0 (T.remove space r) (
        freed start end r (T.items space) (T.items (T.remove space r))
          (hit-IsNested (record { start = start; end = end }) r
            (T.find-eq space (record { start = start; end = end }) r h))
          (T.items-remove space (record { start = start; end = end }) r h))

    query_answer :
        (r : Option Region)
        → T.find space (record { start = start; end = start }) ≡ r
        → Serves a op_q start end id space self rest (queried T V e self a r rest)
    unfolding queried
    query_answer none h =
        unchanged op_q alloc_if_err_range 0 0 (not_found start end (T.items space))
    query_answer (some r) h = unchanged op_q alloc_if_ok r.start r.end (
        found start end r (T.items space) (T.items (T.remove space r))
          (nested_address start r (
            hit-IsNested (record { start = start; end = start }) r
              (T.find-eq space (record { start = start; end = start }) r h)))
          (T.items-remove space (record { start = start; end = start }) r h))

  serve_answer :
      (self : ℕ) (a : Alloc T V) (op : AllocOp) (start end id : ℕ) (space : T.Tree) (rest : Rest)
      → u32 a.in_reg.pkt.to ≡ op_code op
      → length a.in_reg.pkt.payload ≡ 64
      → word_at a.in_reg.pkt 0 ≡ some id
      → word_at a.in_reg.pkt 1 ≡ some start
      → word_at a.in_reg.pkt 2 ≡ some end
      → leb a.max_spaces id ≡ false
      → V.at a.spaces id ≡ some space
      → IsAnswered a self rest
      → Serves a op start end id space self rest (alloc_serve T V e self a rest)
  unfolding alloc_serve alloc_new alloc_rm alloc_q
  serve_answer self a op_new start end id space rest o full w0 w1 w2 known there answered =
      rw (o, w0, w1, w2, known, there)
        (insert_answer self a start end id space rest full there answered _ refl)
  serve_answer self a op_rm start end id space rest o full w0 w1 w2 known there answered =
      rw (o, w0, w1, w2, known, there)
        (remove_answer self a start end id space rest full there answered _ refl)
  serve_answer self a op_q start end id space rest o full w0 w1 w2 known there answered =
      rw (o, w0, w1, known, there)
        (query_answer self a start end id space rest full there answered _ refl)

  -- A clock cycle of the allocator with a request of 64 bytes for one of its spaces, and no reply that
  -- waits, sends one reply, which is the answer of the abstract allocator: a new region is in the space
  -- afterwards, a freed region that is nested with the given range is no longer in it, and a query gives
  -- a region of the space that has the address in it. The other spaces stay as they were, the allocator
  -- is free for the next request, and it keeps the reply exactly if the receiver is busy.
  pub alloc_clock-Serves :
      (self : ℕ) (a : Alloc T V) (op : AllocOp) (start end id : ℕ) (space : T.Tree) (rest : Rest)
      → a.in_reg.busy ≡ true
      → a.out_reg.busy ≡ false
      → u32 a.in_reg.pkt.to ≡ op_code op
      → length a.in_reg.pkt.payload ≡ 64
      → word_at a.in_reg.pkt 0 ≡ some id
      → word_at a.in_reg.pkt 1 ≡ some start
      → word_at a.in_reg.pkt 2 ≡ some end
      → id < a.max_spaces
      → V.at a.spaces id ≡ some space
      → IsAnswered a self rest
      → Serves a op start end id space self rest (alloc_clock T V e self a rest)
  unfolding alloc_clock
  alloc_clock-Serves self a op start end id space rest busy free o full w0 w1 w2 known there
        answered =
      let inside : leb a.max_spaces id ≡ false = ground (arith, known) in
      simp (busy, free)
        (serve_answer self a op start end id space rest o full w0 w1 w2 inside there answered)
