-- ===== src/Network/Order.antt =====
-- The calls of a static configuration, in their order.
use mathlib.Core.Path.{subst}
use k0smos.Base.{◌≡◌, refl, sym, ◌∙◌, inl, inr, some, Option-cases, false, List, [], ◌∷◌}
use k0smos.Base.Text.{Text, is_empty}
use k0smos.Base.Io.{ok, Env, attempt}
use k0smos.Base.Sequence.{Step, Performed, perform, perform-Performed, perform-attempt, bind_assoc}
use k0smos.Network.{
  Address, Op, link_up, set_addr, add_default_route, Failure, address_failed, link_failed,
  route_failed, Parsers, and_to4, configure,
}

abbrev pub configure_steps :
    Text → Text → Text → Address → Address → Address → List (Step Op Text Failure)
configure_steps iface cidr gw ip mask router =
    (set_addr iface ip mask, address_failed iface cidr)
    ∷ (link_up iface, link_failed iface)
    ∷ (add_default_route router, route_failed gw)
    ∷ []

one_call :
    (fails : Env Op Text) (op : Op) (wrap : Text → Failure) (t : List Op)
    → attempt fails op wrap t ≡ perform fails ((op, wrap) ∷ []) t
unfolding perform
one_call fails op wrap t = elim (Option-cases (fails t op)) [
  | inl n ↦ rw n refl
  | inr (c, e) ↦ rw e refl
]

-- For an IPv4 address and a gateway that parse, the address is set, the link comes up and only then
-- the default route is added; the first of these that fails ends it and is its error.
pub configure-Performed :
    (fails : Env Op Text) (p : Parsers) (iface cidr gw : Text) (addr ip mask router : Address)
    (t : List Op)
    → p.parse_cidr cidr ≡ ok (addr, mask)
    → p.to4 addr ≡ some ip
    → is_empty gw ≡ false
    → and_to4 p (p.parse_ip gw) ≡ some router
    → Performed fails
        (configure_steps iface cidr gw ip mask router)
        t
        (configure fails p iface cidr gw t)
unfolding configure
configure-Performed fails p iface cidr gw addr ip mask router t ec ei eg er =
    rw (ec, ei, eg, er)
      (subst (Performed fails (configure_steps iface cidr gw ip mask router) t)
        (sym (
          bind_assoc (attempt fails (set_addr iface ip mask) (address_failed iface cidr))
            (attempt fails (link_up iface) (link_failed iface))
            (attempt fails (add_default_route router) (route_failed gw)) t
          ∙ perform-attempt fails _ _ _ _ t (λ k.
            perform-attempt fails _ _ _ _ k
              (one_call fails (add_default_route router) (route_failed gw)))))
        (perform-Performed fails (configure_steps iface cidr gw ip mask router) t))
