-- ===== src/Sip/Hosts.antt =====
-- `uri_host_port` of crates/sip-core/src/wire/util.rs: the host and the port that a URI names.
use dee_lip.Prelude.{
  ℕ, ◌^◌, ◌||◌, Option, none, some, List, [], ◌∷◌, ◌==◌, if◌then◌else◌, codes, trim, strip_prefix,
  parse_unsigned,
}
use dee_lip.Sip.Util.{or_text}
use dee_lip.Sip.Message.{break_at}

abbrev or_else : Option (List ℕ) → Option (List ℕ) → Option (List ℕ)
or_else (some s) o = some s
or_else none o = o

-- What stands behind the last such character: `rsplit_once(..).map(|(_, h)| h)`.
unfoldable behind_last : ℕ → List ℕ → Option (List ℕ)
behind_last sep [] = none
behind_last sep (c ∷ cs) = or_else (behind_last sep cs) (if c == sep then some cs else none)

-- The text up to the first `;` or `?`.
unfoldable up_to_params : List ℕ → List ℕ
up_to_params [] = []
up_to_params (c ∷ cs) =
    let rest = up_to_params cs in if c == 0x3b || c == 0x3f then [] else c ∷ rest

abbrev or_5060 : Option ℕ → ℕ
or_5060 none = 5060
or_5060 (some port) = port

abbrev port_behind : Option (List ℕ) → Option ℕ
port_behind none = none
port_behind (some digits) = parse_unsigned (2 ^ 16) digits

abbrev in_brackets : List ℕ × Option (List ℕ) → Option (List ℕ × ℕ)
in_brackets (host, none) = none
in_brackets (host, some after) = some (host, or_5060 (port_behind (strip_prefix (codes ":") after)))

abbrev host_of : List ℕ → Option (List ℕ × ℕ)
host_of [] = none
host_of (c ∷ cs) =
    if c == 0x5b
    then in_brackets (break_at 0x5d cs)
    else (let (host, port) = break_at 0x3a (c ∷ cs) in some (host, or_5060 (port_behind port)))

unfoldable pub uri_host_port : List ℕ → Option (List ℕ × ℕ)
unfolding behind_last up_to_params break_at
uri_host_port uri =
    let rest =
      or_text (or_else (strip_prefix (codes "sips:") uri) (strip_prefix (codes "sip:") uri)) uri in
    host_of (trim (up_to_params (or_text (behind_last 0x40 rest) rest)))
