-- ===== src/Cniserver/PodConfiguration/Shaped.antt =====
-- configureTC of pkg/cniserver/pod_configuration.go.
use ciccni.Base.{
  ℕ, ◌+◌, ◌*◌, ◌%◌, ◌^◌, String, ◌≡◌, refl, sym, subst, ap, ◌∙◌, List, [], ◌∷◌, ◌++◌, append_assoc,
  append-nil, none, some, Outcome, ok, err, panic, Error, Exec, Done, resume,
}
use ciccni.Net.{IpNet, v4, parse_cidr}
use ciccni.Tctools.Bandwidth.{add_htb_class}
use ciccni.Tctools.Shaping.{
  Object, Kernel, create_htb_object, class_object, create_filter_object, protocol_ip, dst_key,
  create_htb_class,
}
use ciccni.Tctools.Shaping.Posted.{
  View, Adds, Documented, add_htb_to_interface-Adds, create_htb_class-Adds,
  add_tc_filter_with_dst_cidr-Adds,
}
use ciccni.Tctools.Bandwidth.Rates.{add_htb_class-ceil}
use ciccni.Cniserver.PodConfiguration.{configure_tc}

module _ {W : Type 0} (view : View W) where
  -- How the objects are handed over: all of them, or those before one that is missing.
  pub data Shaped (todo : List Object) (w : W) : Outcome Done × W → Type 0 where
    complete :
        (w' : W)
        → view.opened w' ≡ view.opened w
        → view.posted w' ≡ view.posted w ++ todo
        → Shaped todo w (ok tt, w')
    incomplete :
        (w' : W) (e : Error) (before : List Object) (o : Object) (after : List Object)
        → todo ≡ before ++ o ∷ after
        → view.opened w' ≡ view.opened w
        → view.posted w' ≡ view.posted w ++ before
        → Shaped todo w (err e, w')
    panicked :
        (w' : W) (before : List Object) (o : Object) (after : List Object)
        → todo ≡ before ++ o ∷ after
        → view.opened w' ≡ view.opened w
        → view.posted w' ≡ view.posted w ++ before
        → Shaped todo w (panic, w')

  Shaped-cons :
      (o : Object) (todo : List Object) (w w1 : W) {r : Outcome Done × W}
      → view.opened w1 ≡ view.opened w
      → view.posted w1 ≡ view.posted w ++ o ∷ []
      → Shaped todo w1 r
      → Shaped (o ∷ todo) w r
  Shaped-cons o todo w w1 e f (complete w' a b) =
      complete w' (a ∙ e) (b ∙ ap (λ t. t ++ todo) f ∙ append_assoc (view.posted w) _ _)
  Shaped-cons o todo w w1 e f (incomplete w' x before p after s a b) =
      incomplete w' x (o ∷ before) p after (ap (◌∷◌ o) s) (a ∙ e)
        (b ∙ ap (λ t. t ++ before) f ∙ append_assoc (view.posted w) _ _)
  Shaped-cons o todo w w1 e f (panicked w' before p after s a b) =
      panicked w' (o ∷ before) p after (ap (◌∷◌ o) s) (a ∙ e)
        (b ∙ ap (λ t. t ++ before) f ∙ append_assoc (view.posted w) _ _)

  Shaped-step :
      (o : Object) (todo : List Object) (w : W) (r : Outcome Done × W) (k : Exec W Done)
      → Adds view o w r
      → ((w1 : W) → Shaped todo w1 (k w1))
      → Shaped (o ∷ todo) w (resume r (λ _. k))
  Shaped-step o todo w (ok _, w1) k (e, f) next = Shaped-cons o todo w w1 e f (next w1)
  Shaped-step o todo w (err x, w1) k (e, f) next =
      incomplete w1 x [] o todo refl e (f ∙ sym (append-nil _))
  Shaped-step o todo w (panic, w1) k (e, f) next =
      panicked w1 [] o todo refl e (f ∙ sym (append-nil _))

  Shaped-last : (o : Object) (w : W) (r : Outcome Done × W) → Adds view o w r → Shaped (o ∷ []) w r
  Shaped-last o w (ok _, w1) (e, f) = complete w1 e f
  Shaped-last o w (err x, w1) (e, f) = incomplete w1 x [] o [] refl e (f ∙ sym (append-nil _))
  Shaped-last o w (panic, w1) (e, f) = panicked w1 [] o [] refl e (f ∙ sym (append-nil _))

-- the addresses of the pods, 10.244.0.0/16
abbrev pub pods : IpNet
pods = record { ip = v4 0x0af40000; ones = 16 }

-- the root, a class with the limit and with twice the limit and the burst as its ceiling, and a filter
-- that sends what goes to the pods into the class
abbrev pub limits : {W : Type 0} → Kernel W → ℕ → ℕ → ℕ → List Object
limits ops if_index rate burst =
    create_htb_object ops if_index (ops.build_handle 1 0) ops.handle_root none 3 10
    ∷ class_object ops if_index (ops.build_handle 1 1) (ops.build_handle 1 0)
        (record { rate = rate; ceil = (2 * rate + burst) % 2 ^ 32 })
    ∷ create_filter_object ops if_index (ops.build_handle 1 0) (ops.build_handle 1 1) 1 protocol_ip
        (dst_key 0x0af40000 pods ∷ [])
    ∷ []

pods-parsed : parse_cidr "10.244.0.0/16" ≡ some (v4 0x0af40000, pods)
unfolding parse_cidr
pods-parsed = refl

rates_lem :
    (rate burst : ℕ)
    → add_htb_class rate burst ≡ record { rate = rate; ceil = (2 * rate + burst) % 2 ^ 32 }
rates_lem rate burst =
    let (a, b) = add_htb_class-ceil rate burst in λ i. record { rate = a i; ceil = b i }

module _ {W : Type 0} (ops : Kernel W) (view : View W) (index : String → ℕ)
    (doc : Documented view ops index) where
  create_htb_class-rates :
      (name : String) (parent classid rate burst : ℕ) (w : W)
      → Adds view
          (class_object ops
            (index name % 2 ^ 32)
            classid
            parent
            (record { rate = rate; ceil = (2 * rate + burst) % 2 ^ 32 }))
          w
          (create_htb_class ops name parent classid rate burst w)
  create_htb_class-rates name parent classid rate burst w =
      subst
        (λ rates.
          Adds view (class_object ops (index name % 2 ^ 32) classid parent rates) w
            (create_htb_class ops name parent classid rate burst w))
        (rates_lem rate burst)
        (create_htb_class-Adds view ops index doc name parent classid rate burst w)

  -- On a kernel that does what its documentation says, configureTC hands it the three objects of a
  -- limit in order, for the index of the interface: the root, a class whose ceiling is twice the rate
  -- and the burst, cut to 32 bits, and the filter for the addresses of the pods. If it returns an error
  -- or panics it has handed over those before one of them, and no others. Whatever becomes of it,
  -- every socket that it opened is closed, and the sockets that were open are.
  pub configure_tc-Shaped :
      (name : String) (rate burst : ℕ) (w : W)
      → Shaped view
          (limits ops (index name % 2 ^ 32) rate burst)
          w
          (configure_tc ops name rate burst w)
  unfolding configure_tc
  configure_tc-Shaped name rate burst w =
      Shaped-step view _ _ w _ _ (add_htb_to_interface-Adds view ops index doc name w) (λ w1.
        Shaped-step view _ _ w1 _ _ (create_htb_class-rates name _ _ rate burst w1) (λ w2.
          Shaped-last view _ w2 _ (
            add_tc_filter_with_dst_cidr-Adds view ops index doc name _ "10.244.0.0/16" _ 1
              0x0af40000 pods w2 pods-parsed)))
