-- ===== src/Endpoints.antt =====
-- packages/utils/utils.go: addresses with brackets, masks and ports.
use Prim.Native.Char.{code}
use Prim.Native.String.{String, ◌++◌}
use pulseha.Base.{
  ℕ, suc, List, [], ◌∷◌, Bool, ◌&&◌, ◌||◌, none, some, str_eq, ◌==◌, ltb, if◌then◌else◌,
  remove_char, is_some,
}
use pulseha.Base.Int.{pos, ltb_ℤ}
use pulseha.Strconv.{atoi}
use pulseha.Config.{Error}
use pulseha.Groups.{Net, is_ipv6}

-- strings.Split at a character
abbrev in_first : String → List String → List String
in_first c [] = c ∷ []
in_first c (s ∷ ss) = (c ++ s) ∷ ss

unfoldable pub split_at : ℕ → String → List String
split_at c String.[] = "" ∷ []
split_at c (String.◌∷◌ d s) =
    let rest = split_at c s in if code d == c then "" ∷ rest else in_first (String.◌∷◌ d "") rest

abbrev first_two : List String → String × String × Error
first_two (a ∷ b ∷ rest) = (a, b, none)
first_two _ = ("", "", some "Invalid IP:Port string. Unable to split.")

-- SplitIpPort
unfoldable pub split_ip_port : String → String × String × Error
unfolding split_at
split_ip_port s = first_two (split_at b':' s)

-- SanitizeIPv6
unfoldable pub sanitize_ipv6 : String → String
sanitize_ipv6 address = remove_char b']' (remove_char b'[' address)

-- strings.Contains(c, address), for a text `c` of one character: the address is looked for in the bracket.
abbrev within : String → String → Bool
within c address = str_eq address "" || str_eq address c

module _ (net : Net) where
  -- FormatIPv6: what a bracket that was found does is overwritten.
  unfoldable pub format_ipv6 : String → String
  unfolding sanitize_ipv6
  format_ipv6 address =
      let found = within "[" address || within "]" address in
      let clean = if found then sanitize_ipv6 address else "" in
      if is_ipv6 net address then "[" ++ (address ++ "]") else address

  -- IsCIDR
  unfoldable pub is_cidr : String → Bool
  is_cidr s = is_some (net.parse_cidr s)

-- IsPort
unfoldable pub is_port : String → Bool
is_port s = let (i, fine) = atoi s in fine && ltb_ℤ (pos 0) i && ltb_ℤ i (pos 65536)

-- strings.LastIndex of a character, plus one
unfoldable pub last_index : ℕ → String → ℕ
last_index c String.[] = 0
last_index c (String.◌∷◌ d s) =
    let later = last_index c s in if ltb 0 later then suc later else if code d == c then 1 else 0

-- strings.Count of a character
unfoldable pub count : ℕ → String → ℕ
count c String.[] = 0
count c (String.◌∷◌ d s) = let rest = count c s in if code d == c then suc rest else rest

-- HasPort
unfoldable pub has_port : String → Bool
unfolding last_index count
has_port s =
    if last_index b'[' s == 1
    then ltb (last_index b']' s) (last_index b':' s)
    else count b':' s == 1
