-- ===== src/Net.antt =====
-- The values of Go's package `net` that the program handles: IPv4 addresses and networks, which are
-- the only family that it configures, and hardware addresses. Texts in IPv6 notation are outside
-- the model.
use Prim.Native.Char.{code}
use ciccni.Base.{
  ℕ, zero, suc, ◌+◌, ◌-◌, ◌*◌, ◌/◌, ◌%◌, ◌^◌, String, ◌≡◌, refl, ◌&&◌, ◌||◌, Option, none, some,
  Bool, true, false, List, [], ◌∷◌, map, ltb, leb, nat_eqb, if◌then◌else◌, ◌<>◌, dec, hex, join,
}

-- net.IP: nil, or an IPv4 address as its 32-bit number
pub data Ip : Type 0 where
  nil : Ip
  v4 : ℕ → Ip

-- net.IPNet: the address and the number of leading ones of its mask
pub record IpNet : Type 0 where
  pub ip : Ip
  pub ones : ℕ

-- net.HardwareAddr
abbrev pub Mac : Type 0
Mac = List ℕ

-- the byte of a 32-bit number that the power stands at
abbrev pub octet : ℕ → ℕ → ℕ
octet n power = n / power % 256

-- ip.String()
unfoldable pub show_ip : Ip → String
unfolding dec join
show_ip nil = "<nil>"
show_ip (v4 n) =
    join "." (
      dec (octet n (2 ^ 24))
      ∷ dec (octet n (2 ^ 16))
      ∷ dec (octet n (2 ^ 8))
      ∷ dec (octet n 1)
      ∷ [])

-- ipNet.String()
unfoldable pub show_ip_net : IpNet → String
unfolding show_ip
show_ip_net net = show_ip net.ip <> "/" <> dec net.ones

-- "%02x"
hex_byte : ℕ → String
unfolding hex
hex_byte b = if ltb b 16 then "0" <> hex b else hex b

-- mac.String()
unfoldable pub show_mac : Mac → String
unfolding hex_byte join
show_mac mac = join ":" (map hex_byte mac)

-- the mask's 32-bit number
unfoldable pub mask_of : ℕ → ℕ
mask_of ones = 2 ^ 32 - 2 ^ (32 - ones)

-- fmt's %s of a mask, eight hexadecimal digits
unfoldable pub show_mask : ℕ → String
unfolding hex_byte mask_of
show_mask ones =
    let m = mask_of ones in
    hex_byte (octet m (2 ^ 24))
    <> hex_byte (octet m (2 ^ 16))
    <> hex_byte (octet m (2 ^ 8))
    <> hex_byte (octet m 1)

-- ip.Mask(mask): the address with the host bits cleared
unfoldable pub mask_ip : Ip → ℕ → Ip
mask_ip nil ones = nil
mask_ip (v4 n) ones = v4 (n / 2 ^ (32 - ones) * 2 ^ (32 - ones))

-- A decimal number that runs up to the end of the text or to the separator: its value, its number
-- of digits, and the text behind the separator. Only some may begin with zeros.
scan_number : Bool → ℕ → ℕ → ℕ → String → Option (ℕ × ℕ × Option String)
scan_number zeros sep n digits String.[] = some (n, digits, none)
scan_number zeros sep n digits (String.◌∷◌ c s) =
    let d = code c in
    let more = scan_number zeros sep (n * 10 + (d - b'0')) (digits + 1) s in
    if nat_eqb d sep
    then some (n, digits, some s)
    else if leb b'0' d && leb d b'9' && (zeros || nat_eqb digits 0 || ltb 0 n)
    then more
    else none

-- a number at the head of the text, and what follows the separator
number_before : Bool → ℕ → String → Option (ℕ × Option String)
unfolding scan_number
number_before zeros sep s = elim (scan_number zeros sep 0 0 s) [
  | none ↦ none
  | some (n, digits, rest) ↦ if nat_eqb digits 0 then none else some (n, rest)
]

-- what is left of an address to read, and what has been read
octets_from : ℕ → ℕ → String → Option ℕ
unfolding number_before
octets_from zero acc s = none
octets_from (suc k) acc s = elim (number_before false b'.' s) [
  | none ↦ none
  | some (n, none) ↦ if ltb 255 n then none else if nat_eqb k 0 then some (acc * 256 + n) else none
  | some (n, some rest) ↦ if ltb 255 n then none else octets_from k (acc * 256 + n) rest
]

-- net.ParseIP, whose failure is nil
unfoldable pub parse_ip : String → Ip
unfolding octets_from
parse_ip s = elim (octets_from 4 0 s) [ none ↦ nil | some n ↦ v4 n ]

-- the text before the first slash and the text behind it
split_slash : String → String → Option (String × String)
split_slash before String.[] = none
split_slash before (String.◌∷◌ c s) =
    let more = split_slash (before <> String.◌∷◌ c "") s in
    if nat_eqb (code c) b'/' then some (before, s) else more

network : ℕ → Option (ℕ × Option String) → Option (Ip × IpNet)
unfolding mask_ip
network n none = none
network n (some (ones, some rest)) = none
network n (some (ones, none)) =
    if ltb 32 ones then none else some (v4 n, record { ip = mask_ip (v4 n) ones; ones = ones })

-- net.ParseCIDR
unfoldable pub parse_cidr : String → Option (Ip × IpNet)
unfolding octets_from number_before split_slash network
parse_cidr s = elim (split_slash "" s) [
  | none ↦ none
  | some (addr, ones) ↦ elim (octets_from 4 0 addr) [
    | none ↦ none
    | some n ↦ network n (number_before true b'/' ones)
  ]
]

parse_cidr_test :
    parse_cidr "10.244.1.7/24" ≡ some (v4 0x0af40107, record { ip = v4 0x0af40100; ones = 24 })
unfolding parse_cidr
parse_cidr_test = refl

parse_cidr_zeros :
    parse_cidr "10.244.1.7/024" ≡ some (v4 0x0af40107, record { ip = v4 0x0af40100; ones = 24 })
unfolding parse_cidr
parse_cidr_zeros = refl

parse_ip_test :
    (parse_ip "192.168.0.256" ≡ nil) × (parse_ip "1.2.3" ≡ nil) × (parse_ip "01.2.3.4" ≡ nil)
unfolding parse_ip
parse_ip_test = (refl, refl, refl)

show_ip_net_test : show_ip_net (record { ip = v4 0x0af40100; ones = 24 }) ≡ "10.244.1.0/24"
unfolding show_ip_net
show_ip_net_test = refl

show_mac_test : show_mac (0xaa ∷ 0x0b ∷ 0xff ∷ []) ≡ "aa:0b:ff"
unfolding show_mac
show_mac_test = refl
