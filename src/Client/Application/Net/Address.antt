-- ===== src/Client/Application/Net/Address.antt =====
-- An address as the user types it, through `client_net_parse_address`.
use wa_game.Prelude.{ℕ, ◌-◌, ◌≡◌, refl, ap, ◌∙◌, false, some, List, [], ◌∷◌, ◌++◌, ◌==◌, take}
use wa_game.Map.{u16}
use wa_game.Client.Application.{colon}
use wa_game.Client.Application.Net.{
  first_token, skip_colons, until_colon, token, parse_address, default_port, addr_len,
}

-- A byte in front of others.
abbrev NoColon : List ℕ → Type 0
NoColon [] = Unit {0}
NoColon (b ∷ bs) = ((b == colon) ≡ false) × NoColon bs

skip_colons-plain : (b : ℕ) (bs : List ℕ) → (b == colon) ≡ false → skip_colons (b ∷ bs) ≡ b ∷ bs
skip_colons-plain b bs h = rw h refl

until_colon-plain : (bs : List ℕ) → NoColon bs → until_colon bs ≡ (bs, [])
until_colon-plain [] h = refl
until_colon-plain (b ∷ bs) h = rw (h.0, until_colon-plain bs h.1)

until_colon-append :
    (bs rest : List ℕ) → NoColon bs → until_colon (bs ++ (colon ∷ rest)) ≡ (bs, rest)
until_colon-append [] rest h = refl
until_colon-append (b ∷ bs) rest h = rw (h.0, until_colon-append bs rest h.1)

token-plain : (b : ℕ) (bs : List ℕ) → NoColon (b ∷ bs) → token (b ∷ bs) ≡ (some (b ∷ bs), [])
unfolding token
token-plain b bs h =
    ap first_token (skip_colons-plain b bs h.0)
    ∙ ap (λ (t : List ℕ × List ℕ). (some t.0, t.1)) (until_colon-plain (b ∷ bs) h)

token-append :
    (b : ℕ) (bs rest : List ℕ)
    → NoColon (b ∷ bs)
    → token ((b ∷ bs) ++ (colon ∷ rest)) ≡ (some (b ∷ bs), rest)
unfolding token
token-append b bs rest h =
    ap first_token (skip_colons-plain b (bs ++ (colon ∷ rest)) h.0)
    ∙ ap (λ (t : List ℕ × List ℕ). (some t.0, t.1)) (until_colon-append (b ∷ bs) rest h)

-- An address and a port, both not empty and without a colon, with a colon between are read as the
-- first 45 bytes of the address and the port modulo 2^16, and the address alone as these bytes
-- and the default port.
pub parse-print_address :
    (strtoul : List ℕ → ℕ) (b : ℕ) (bs : List ℕ) (c : ℕ) (cs : List ℕ)
    → NoColon (b ∷ bs)
    → NoColon (c ∷ cs)
    → (parse_address strtoul ((b ∷ bs) ++ (colon ∷ c ∷ cs))
        ≡ some (take (addr_len - 1) (b ∷ bs), u16 (strtoul (c ∷ cs))))
      × (parse_address strtoul (b ∷ bs) ≡ some (take (addr_len - 1) (b ∷ bs), default_port))
unfolding parse_address token
parse-print_address strtoul b bs c cs hb hc =
    (rw (token-append b bs (c ∷ cs) hb, token-plain c cs hc) refl, rw (token-plain b bs hb) refl)
