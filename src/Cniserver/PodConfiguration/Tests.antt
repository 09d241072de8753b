-- ===== src/Cniserver/PodConfiguration/Tests.antt =====
-- configureTC on a kernel that refuses filters.
use ciccni.Base.{ℕ, ◌≡◌, refl, ap, List, [], ◌∷◌, ◌++◌, ◌+◌, ◌*◌, ◌%◌, ◌^◌, ok, err, external}
use ciccni.Tctools.Shaping.{Object, Kernel}
use ciccni.Tctools.Shaping.Posted.{View, Documented}
use ciccni.Cniserver.PodConfiguration.{configure_tc}
use ciccni.Cniserver.PodConfiguration.Shaped.{Shaped, limits, configure_tc-Shaped}

-- the open sockets and the objects
abbrev Netlink : Type 0
Netlink = List ℕ × List Object

abbrev without_newest : List ℕ → List ℕ
without_newest [] = []
without_newest (sock ∷ socks) = socks

abbrev strict : Kernel Netlink
strict = record {
  interface_by_name = λ name w. (ok 7, w);
  open_socket = λ (socks, objects). (ok 3, (3 ∷ socks, objects));
  set_option = λ sock w. w;
  close = λ sock (socks, objects). (without_newest socks, objects);
  add_qdisc = λ sock o (socks, objects). (ok tt, (socks, objects ++ o ∷ []));
  add_class = λ sock o (socks, objects). (ok tt, (socks, objects ++ o ∷ []));
  add_filter = λ sock o w. (err (external "operation not supported"), w);
  get_filters = λ sock msg w. (ok [], w);
  build_handle = λ major minor. major * 2 ^ 16 + minor;
  handle_root = 0xffffffff;
  af_unspec = 0;
  tcnl = 2;
}

abbrev observed : View Netlink
observed = record { opened = λ (socks, objects). socks; posted = λ (socks, objects). objects }

without_newest-eq :
    {socks rest : List ℕ} {sock : ℕ} → socks ≡ sock ∷ rest → without_newest socks ≡ rest
without_newest-eq e = ap without_newest e

strict-Documented : Documented observed strict (λ name. 7)
strict-Documented = record {
  asks = λ name w. (refl, (refl, refl));
  opens = λ w. (refl, refl);
  option = λ sock w. (refl, refl);
  closes = λ sock socks w e. (without_newest-eq e, refl);
  qdiscs = λ sock o w. (refl, refl);
  classes = λ sock o w. (refl, refl);
  filters = λ sock o w. (refl, refl);
}

configure_tc-Shaped_example :
    Shaped observed
      (limits strict (7 % 2 ^ 32) 1000000 100000)
      ([], [])
      (configure_tc strict "eth0" 1000000 100000 ([], []))
configure_tc-Shaped_example =
    configure_tc-Shaped strict observed (λ name. 7) strict-Documented "eth0" 1000000 100000 ([], [])
