-- ===== src/Binding/Flow/Format.antt =====
-- MatchString of pkg/ovs/openflow/cmd_flow.go as the key of a flow.
use text.Mathlib.TextLemmas.{append_cancel_left, cons-append}
use ciccni.Base.{String, ◌≡◌, refl, ◌↔◌, List, [], ◌∷◌, arith}
use ciccni.Base.Text.{Ends, dec_at_separator}
use ciccni.Binding.Flow.{Flow, section, match_string}

section-Ends : (name : String) (parts : List String) → Ends b',' (section name parts)
unfolding section
section-Ends name [] = tt
section-Ends name (p ∷ parts) = rw cons-append refl

-- Two flows have one match string exactly when they are in tables of one number and their matchers
-- print alike. So neither the priority nor the actions of a flow tell it from another.
pub match_string-eq_iff :
    (f g : Flow)
    → (match_string f ≡ match_string g)
      ↔ ((f.table.id ≡ g.table.id) × (section "" f.matchers ≡ section "" g.matchers))
unfolding match_string
match_string-eq_iff f g = (
  λ e.
      dec_at_separator b',' _ _ _ _ (omega arith) (section-Ends "" f.matchers)
        (section-Ends "" g.matchers) (append_cancel_left "table=" _ _ e),
  λ h. cc (h.0, h.1),
)
