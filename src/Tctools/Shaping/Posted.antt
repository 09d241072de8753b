-- ===== src/Tctools/Shaping/Posted.antt =====
-- pkg/tctools/tctools.go: which sockets are open, and which objects the kernel has been handed.
use ciccni.Base.{
  ℕ, ◌%◌, ◌^◌, String, ◌≡◌, ap, ◌∙◌, List, [], ◌∷◌, ◌++◌, none, some, Outcome, ok, err, panic, Exec,
  Done, resume,
}
use ciccni.Net.{v4, IpNet, parse_cidr}
use ciccni.Tctools.Bandwidth.{add_htb_class}
use ciccni.Tctools.Shaping.{
  Object, Kernel, create_htb_object, class_object, create_filter_object, protocol_ip, dst_key,
  create_tcnl, closed, closing, add_htb_to_interface, create_htb_class, add_tc_filter_with_dst_cidr,
}

-- What can be observed of the kernel: its open sockets, newest first, and the objects of which it has
-- been handed each, oldest first.
pub record View (W : Type 0) : Type 0 where
  pub opened : W → List ℕ
  pub posted : W → List Object

module _ {W : Type 0} (view : View W) where
  abbrev pub Kept : W → W → Type 0
  Kept w w' = (view.opened w' ≡ view.opened w) × (view.posted w' ≡ view.posted w)

  -- A call that asks only.
  abbrev pub Asked : (ℕ → Type 0) → W → Outcome ℕ × W → Type 0
  Asked Right w (ok n, w') = Right n × Kept w w'
  Asked Right w (err _, w') = Kept w w'
  Asked Right w (panic, w') = Kept w w'

  -- A call that opens a socket.
  abbrev pub Opened : W → Outcome ℕ × W → Type 0
  Opened w (ok sock, w') =
      (view.opened w' ≡ sock ∷ view.opened w) × (view.posted w' ≡ view.posted w)
  Opened w (err _, w') = Kept w w'
  Opened w (panic, w') = Kept w w'

  -- A call that hands an object to the kernel, which takes it or refuses it.
  abbrev pub Adds : Object → W → Outcome Done × W → Type 0
  Adds o w (ok _, w') =
      (view.opened w' ≡ view.opened w) × (view.posted w' ≡ view.posted w ++ o ∷ [])
  Adds o w (err _, w') = Kept w w'
  Adds o w (panic, w') = Kept w w'

  -- What the kernel's documentation says of its calls, for interfaces that keep their index.
  pub record Documented (ops : Kernel W) (index : String → ℕ) : Type 0 where
    pub asks :
        (name : String) (w : W) → Asked (λ i. i ≡ index name) w (ops.interface_by_name name w)
    pub opens : (w : W) → Opened w (ops.open_socket w)
    pub option : (sock : ℕ) (w : W) → Kept w (ops.set_option sock w)
    pub closes :
        (sock : ℕ) (socks : List ℕ) (w : W)
        → view.opened w ≡ sock ∷ socks
        → (view.opened (ops.close sock w) ≡ socks)
          × (view.posted (ops.close sock w) ≡ view.posted w)
    pub qdiscs : (sock : ℕ) (o : Object) (w : W) → Adds o w (ops.add_qdisc sock o w)
    pub classes : (sock : ℕ) (o : Object) (w : W) → Adds o w (ops.add_class sock o w)
    pub filters : (sock : ℕ) (o : Object) (w : W) → Adds o w (ops.add_filter sock o w)

  Adds-Kept : (o : Object) (w w1 : W) (r : Outcome Done × W) → Kept w w1 → Adds o w1 r → Adds o w r
  Adds-Kept o w w1 (ok _, w2) (a, b) (c, d) = (c ∙ a, d ∙ ap (λ t. t ++ o ∷ []) b)
  Adds-Kept o w w1 (err _, w2) (a, b) (c, d) = (c ∙ a, d ∙ b)
  Adds-Kept o w w1 (panic, w2) (a, b) (c, d) = (c ∙ a, d ∙ b)

  Adds-Asked :
      (o : Object) (n : ℕ) (w : W) (r : Outcome ℕ × W) (k : ℕ → Exec W Done)
      → Asked (λ i. i ≡ n) w r
      → ((w1 : W) → Adds o w1 (k n w1))
      → Adds o w (resume r k)
  Adds-Asked o n w (ok i, w1) k (e, kept) next = rw e (Adds-Kept o w w1 (k n w1) kept (next w1))
  Adds-Asked o n w (err _, w1) k kept next = kept
  Adds-Asked o n w (panic, w1) k kept next = kept

  module _ (ops : Kernel W) (index : String → ℕ) (doc : Documented ops index) where
    -- the socket that a call was made on is closed
    Adds-closed :
        (o : Object) (sock : ℕ) (w w1 : W) (r : Outcome Done × W)
        → view.opened w1 ≡ sock ∷ view.opened w
        → view.posted w1 ≡ view.posted w
        → Adds o w1 r
        → Adds o w (closed (ops.close sock) r)
    Adds-closed o sock w w1 (ok _, w2) e f (c, d) =
        let (x, y) = doc.closes sock (view.opened w) w2 (c ∙ e) in
        (x, y ∙ d ∙ ap (λ t. t ++ o ∷ []) f)
    Adds-closed o sock w w1 (err _, w2) e f (c, d) =
        let (x, y) = doc.closes sock (view.opened w) w2 (c ∙ e) in (x, y ∙ d ∙ f)
    Adds-closed o sock w w1 (panic, w2) e f (c, d) =
        let (x, y) = doc.closes sock (view.opened w) w2 (c ∙ e) in (x, y ∙ d ∙ f)

    -- a call on a socket of its own, with an option set
    Adds-socket :
        (o : Object) (w : W) (r : Outcome ℕ × W) (which : ℕ → ℕ) (call : ℕ → Exec W Done)
        → Opened w r
        → ((sock : ℕ) (w1 : W) → Adds o w1 (call sock w1))
        → Adds o w
            (resume r (λ sock. closing ops sock (λ w1. call sock (ops.set_option (which sock) w1))))
    Adds-socket o w (ok sock, w1) which call (e, f) next =
        let w2 = ops.set_option (which sock) w1 in
        let (a, b) = doc.option (which sock) w1 in
        Adds-closed o sock w w2 (call sock w2) (a ∙ e) (b ∙ f) (next sock w2)
    Adds-socket o w (err _, w1) which call kept next = kept
    Adds-socket o w (panic, w1) which call kept next = kept

    pub add_htb_to_interface-Adds :
        (name : String) (w : W)
        → Adds
            (create_htb_object ops
              (index name % 2 ^ 32)
              (ops.build_handle 1 0)
              ops.handle_root
              none
              3
              10)
            w
            (add_htb_to_interface ops name w)
    unfolding add_htb_to_interface
    add_htb_to_interface-Adds name w = Adds-Asked _ _ w _ _ (doc.asks name w) (λ w1.
        Adds-socket _ w1 (ops.open_socket w1) (λ _. ops.tcnl) _ (doc.opens w1)
          (λ sock w2. doc.qdiscs sock _ w2))

    -- createTcnl, and then the call
    Adds-tcnl :
        (o : Object) (w : W) (r : Outcome ℕ × W) (call : ℕ → Exec W Done)
        → Opened w r
        → ((sock : ℕ) (w1 : W) → Adds o w1 (call sock w1))
        → Adds o w (
            resume
              (resume r (λ sock w1. (ok sock, ops.set_option sock w1)))
              (λ sock. closing ops sock (call sock)))
    Adds-tcnl o w (ok sock, w1) call h next = Adds-socket o w (ok sock, w1) (λ s. s) call h next
    Adds-tcnl o w (err _, w1) call kept next = kept
    Adds-tcnl o w (panic, w1) call kept next = kept

    pub create_htb_class-Adds :
        (name : String) (parent classid limit burst : ℕ) (w : W)
        → Adds
            (class_object ops (index name % 2 ^ 32) classid parent (add_htb_class limit burst))
            w
            (create_htb_class ops name parent classid limit burst w)
    unfolding create_htb_class create_tcnl
    create_htb_class-Adds name parent classid limit burst w =
        Adds-Asked _ _ w _ _ (doc.asks name w) (λ w1.
          Adds-tcnl _ w1 (ops.open_socket w1) _ (doc.opens w1) (λ sock w2. doc.classes sock _ w2))

    pub add_tc_filter_with_dst_cidr-Adds :
        (name : String) (parent : ℕ) (cidr : String) (class_id prio n : ℕ) (net : IpNet) (w : W)
        → parse_cidr cidr ≡ some (v4 n, net)
        → Adds
            (create_filter_object ops
              (index name % 2 ^ 32)
              (ops.build_handle 1 0)
              (ops.build_handle 1 1)
              prio
              protocol_ip
              (dst_key n net ∷ []))
            w
            (add_tc_filter_with_dst_cidr ops name parent cidr class_id prio w)
    unfolding add_tc_filter_with_dst_cidr create_tcnl
    add_tc_filter_with_dst_cidr-Adds name parent cidr class_id prio n net w e =
        Adds-Asked _ _ w _ _ (doc.asks name w) (λ w1.
          Adds-tcnl _ w1 (ops.open_socket w1) _ (doc.opens w1)
            (λ sock w2. rw e (doc.filters sock _ w2)))
