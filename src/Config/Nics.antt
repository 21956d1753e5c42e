-- ===== src/Config/Nics.antt =====
-- What the expansion of the address setting into interfaces gives.
use k0smos.Base.{
  ◌≡◌, refl, Bool, true, false, some, List, [], ◌∷◌, ◌++◌, if◌then◌else◌, arith, All, ap,
  Bool-cases, Option-cases, append_assoc, map, ◌⊎◌, inl, inr,
}
use k0smos.Base.Text.{Text, codes, text_eq, has_prefix, split, join, is_empty, contains}
use k0smos.Base.Text.Laws.{Lacks, cut-append, split-join, text_eq_refl, Lacks-append}
use k0smos.Config.{Config, Nic, nic_of, nics_of, nics}

-- An entry of the list, as it is written.
abbrev pub entry : Text × Text → Text
entry (name, addr) = name ++ b':' ∷ addr

abbrev pub list_setting : List (Text × Text) → Text
list_setting l = join (map entry l) b','

abbrev pub nic_for : Config → Text × Text → Nic
nic_for c (name, addr) = record {
  name = name;
  addr = addr;
  gateway = if text_eq name c.iface then c.gateway else [];
}

-- Neither part is empty, no part holds a comma, and the name holds no colon.
abbrev pub IsEntry : Text × Text → Type 0
IsEntry (name, addr) =
    (is_empty name ≡ false)
    × (is_empty addr ≡ false)
    × Lacks b':' name
    × Lacks b',' name
    × Lacks b',' addr

nic_of-entry : (c : Config) (p : Text × Text) → IsEntry p → nic_of c (entry p) ≡ some (nic_for c p)
unfolding nic_of
nic_of-entry c (name, addr) (hn, ha, colon, _, _) =
    rw (cut-append name addr b':' colon) (ground arith)

nics_of-map :
    (c : Config) (l : List (Text × Text))
    → All IsEntry l
    → nics_of c (map entry l) ≡ map (nic_for c) l
unfolding nics_of
nics_of-map c [] h = refl
nics_of-map c (p ∷ l) (hp, hl) =
    rw (nic_of-entry c p hp, nics_of) (ap (λ t. nic_for c p ∷ t) (nics_of-map c l hl))

entry-Lacks : (p : Text × Text) → IsEntry p → Lacks b',' (entry p)
entry-Lacks (name, addr) (_, _, _, h, k) =
    Lacks-append b',' name (b':' ∷ addr) h ((λ e. absurd (omega arith)), k)

map-Lacks : (l : List (Text × Text)) → All IsEntry l → All (Lacks b',') (map entry l)
map-Lacks [] h = tt
map-Lacks (p ∷ l) (hp, hl) = (entry-Lacks p hp, map-Lacks l hl)

-- Text that holds a colon, on either side of more text.
contains-colon : (s t : Text) → contains (s ++ b':' ∷ t) (codes ":") ≡ true
unfolding contains has_prefix
contains-colon [] t = refl
contains-colon (c ∷ s) t = ground (arith, contains-colon s t)

contains-list_setting :
    (p : Text × Text) (l : List (Text × Text)) → contains (list_setting (p ∷ l)) (codes ":") ≡ true
unfolding join
contains-list_setting (name, addr) [] = contains-colon name addr
contains-list_setting (name, addr) (q ∷ l) =
    rw append_assoc (contains-colon name (addr ++ b',' ∷ join (map entry (q ∷ l)) b','))

colon-nonempty : (s : Text) → contains s (codes ":") ≡ true → is_empty s ≡ false
unfolding contains has_prefix
colon-nonempty [] h = cc
colon-nonempty (c ∷ s) h = refl

-- A per-interface list of well-formed entries with no "::" in it gives one interface for each
-- entry, in order, and the gateway stands on exactly the entries named by `Iface`: on two of them,
-- if two carry that name.
pub nics-list_setting :
    (c : Config) (p : Text × Text) (l : List (Text × Text))
    → c.ip ≡ list_setting (p ∷ l)
    → contains (list_setting (p ∷ l)) (codes "::") ≡ false
    → All IsEntry (p ∷ l)
    → nics c ≡ map (nic_for c) (p ∷ l)
unfolding nics
nics-list_setting c p l e twice h = ground (
  arith,
  contains-list_setting p l,
  colon-nonempty (list_setting (p ∷ l)),
  split-join (entry p) (map entry l) b',' (map-Lacks (p ∷ l) h),
  nics_of-map c (p ∷ l) h,
)

-- One interface that carries the gateway, or none.
abbrev pub GatewayOnIface : Config → Nic → Type 0
GatewayOnIface c n = (n.gateway ≡ []) ⊎ (text_eq n.name c.iface ≡ true) × (n.gateway ≡ c.gateway)

abbrev pub IsNamed : Nic → Type 0
IsNamed n = (is_empty n.name ≡ false) × (is_empty n.addr ≡ false)

nic_of_sound :
    (c : Config) (spec : Text) (n : Nic) → nic_of c spec ≡ some n → IsNamed n × GatewayOnIface c n
unfolding nic_of
nic_of_sound c spec n h = ground arith

nics_of_sound :
    (c : Config) (specs : List Text) → All (λ n. IsNamed n × GatewayOnIface c n) (nics_of c specs)
unfolding nics_of
nics_of_sound c [] = tt
nics_of_sound c (spec ∷ specs) = elim (Option-cases (nic_of c spec)) [
  | inl e ↦ rw (e, nics_of) (nics_of_sound c specs)
  | inr (n, e) ↦ rw (e, nics_of) (nic_of_sound c spec n e, nics_of_sound c specs)
]

All-if :
    (P : Nic → Type 0) (b : Bool) {n : Nic} (l : List Nic)
    → P n
    → All P l
    → All P (if b then n ∷ [] else l)
All-if P true l hn hl = (hn, tt)
All-if P false l hn hl = hl

-- Whatever the address setting holds, malformed entries included, every interface that is
-- configured has a name and an address, if `Iface` is not empty, and a gateway stands only on an
-- interface named `Iface`, where it is the configured one.
pub nics_sound :
    (c : Config) → is_empty c.iface ≡ false → All (λ n. IsNamed n × GatewayOnIface c n) (nics c)
unfolding nics
nics_sound c h = elim (Bool-cases (is_empty c.ip)) [
  | inl e ↦ rw e tt
  | inr e ↦ rw e (
      All-if (λ n. IsNamed n × GatewayOnIface c n) _ _ ((h, e), inr (text_eq_refl c.iface, refl))
        (nics_of_sound c (split c.ip b',')))
]
