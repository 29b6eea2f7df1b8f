-- ===== src/Netcore/Announcing.antt =====
-- How the addresses that BringUpIPs put up are announced.
use Prim.Native.String.{String}
use pulseha.Base.{
  ℕ, List, [], ◌∷◌, true, false, none, some, ◌==◌, ◌≡◌, refl, ap, ◌∙◌, arith, has_char, remove_char,
  Bool-cases, inl, inr, All,
}
use Prim.Native.Char.{code}
use pulseha.Config.{Error}
use pulseha.Groups.{Net, is_ipv6}
use pulseha.Netcore.{
  Netlink, Host, Announcement, announcement, bring_ip_up, bring_up_all, announce, or_rest,
}

has_char-remove_char :
    (c d : ℕ) (s : String) → (c == d) ≡ false → has_char c (remove_char d s) ≡ has_char c s
has_char-remove_char c d String.[] apart = refl
has_char-remove_char c d (String.◌∷◌ x s) apart = elim (Bool-cases (code x == d)) [
  | inl hit ↦ rw (hit, has_char-remove_char c d s apart) (ground (arith, hit, apart))
  | inr miss ↦ rw (miss, has_char-remove_char c d s apart) refl
]

-- Package net: ParseIP takes no text with a slash.
abbrev pub TakesNoMask : Net → Type 0
TakesNoMask net = (s : String) → has_char b'/' s ≡ true → net.parse_ip s ≡ none

-- The announcements of a list of addresses, newest first.
unfoldable pub garps : String → List String → List Announcement → List Announcement
garps iface [] before = before
garps iface (ip ∷ ips) before = garps iface ips (Announcement.garp iface ip ∷ before)

module _ {K : Type 0} (n : Netlink K) (net : Net) (maskless : TakesNoMask net) where
  announcement_garp :
      (iface ip : String)
      → has_char b'/' ip ≡ true
      → announcement n net iface ip ≡ Announcement.garp iface ip
  unfolding announcement is_ipv6
  announcement_garp iface ip masked =
      rw
        (maskless (remove_char b']' (remove_char b'[' ip)) (
          has_char-remove_char b'/' b']' (remove_char b'[' ip) refl
          ∙ has_char-remove_char b'/' b'[' ip refl
          ∙ masked))
        refl

  step :
      (iface ip : String) (ips : List String) (h : Host K) (r : Error × K)
      → has_char b'/' ip ≡ true
      → ((g : Host K)
          → (bring_up_all n net iface ips g).0 ≡ none
          → (bring_up_all n net iface ips g).1.announced ≡ garps iface ips g.announced)
      → (or_rest n net h r (bring_up_all n net iface ips (announce n net iface ip r.1 h))).0 ≡ none
      → (or_rest n net h r
          (bring_up_all n net iface ips (announce n net iface ip r.1 h))).1.announced
        ≡ garps iface ips (Announcement.garp iface ip ∷ h.announced)
  unfolding or_rest announce
  step iface ip ips h (some e, k) masked rest clean = absurd cc
  step iface ip ips h (none, k) masked rest clean =
      rest (announce n net iface ip k h) clean
      ∙ ap (λ a. garps iface ips (a ∷ h.announced)) (announcement_garp iface ip masked)

  -- When BringUpIPs of the plugin ends without an error, it has started just one announcement for each
  -- address in CIDR form, in their order, and each is one of ARP: also for addresses of IPv6.
  pub bring_up_all-garps :
      (iface : String) (ips : List String) (h : Host K)
      → All (λ ip. has_char b'/' ip ≡ true) ips
      → (bring_up_all n net iface ips h).0 ≡ none
      → (bring_up_all n net iface ips h).1.announced ≡ garps iface ips h.announced
  unfolding bring_up_all garps
  bring_up_all-garps iface [] h masked clean = refl
  bring_up_all-garps iface (ip ∷ ips) h masked clean =
      step iface ip ips h (bring_ip_up n net iface ip h.kernel) masked.0
        (λ g. bring_up_all-garps iface ips g masked.1) clean
