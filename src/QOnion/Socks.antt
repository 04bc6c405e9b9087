-- ===== src/QOnion/Socks.antt =====
-- qonion/src/lib.rs: the parser on requests as a SOCKS client writes them.
use project_qlinux.Prelude.{
  ℕ, zero, suc, ◌+◌, ◌-◌, ◌%◌, ◌/◌, ◌≤◌, ◌<◌, ◌^◌, ◌≡◌, refl, ap, ◌∙◌, false, List, [], ◌∷◌, ◌++◌,
  arith, ltb, length, length-append, get_or, slice, take, take-append, ok,
}
use project_qlinux.Prelude.Words.{to_be, from_be}
use project_qlinux.QOnion.{
  Socks5Cmd, connect, bind, udp_assoc, domain, Socks5Request, parse, parse_cmd,
}

abbrev pub cmd_byte : Socks5Cmd → ℕ
cmd_byte connect = 1
cmd_byte bind = 2
cmd_byte udp_assoc = 3

-- A request for a host name; its length fits into its byte up to 255.
abbrev pub domain_request : Socks5Cmd → List ℕ → ℕ → List ℕ
domain_request cmd name port = 5 ∷ cmd_byte cmd ∷ 0 ∷ 3 ∷ length name ∷ (name ++ to_be 2 port)

get_or-append :
    (xs ys : List ℕ) (i k : ℕ) → i ≡ length xs + k → get_or (xs ++ ys) i 0 ≡ get_or ys k 0
get_or-append [] ys i k e = ap (λ j. get_or ys j 0) (omega (arith, e))
get_or-append (x ∷ xs) ys zero k e = absurd (omega arith)
get_or-append (x ∷ xs) ys (suc i) k e = get_or-append xs ys i k (omega (arith, e))

module _ (Text : Type 0) (from_utf8_lossy : List ℕ → Text) where
  cmd_read : (cmd : Socks5Cmd) → parse_cmd Text from_utf8_lossy (cmd_byte cmd) ≡ ok cmd
  cmd_read connect = refl
  cmd_read bind = refl
  cmd_read udp_assoc = refl

  -- The fields of a request for a host name of n bytes.
  parse_fields :
      (buf name : List ℕ) (cmd : Socks5Cmd) (n port : ℕ)
      → 5 + n + 2 ≤ length buf
      → get_or buf 0 0 ≡ 5
      → get_or buf 2 0 ≡ 0
      → get_or buf 1 0 ≡ cmd_byte cmd
      → get_or buf 3 0 ≡ 3
      → get_or buf 4 0 ≡ n
      → slice buf 5 (5 + n) ≡ name
      → from_be (get_or buf (5 + n) 0 ∷ get_or buf (5 + n + 1) 0 ∷ []) ≡ port
      → parse Text from_utf8_lossy buf
        ≡ ok record { cmd = cmd; addr = domain (from_utf8_lossy name); port = port }
  unfolding parse
  parse_fields buf name cmd n port size v r c t l sl p =
      let long : ltb (length buf) 7 ≡ false = ground (arith, size) in
      let all : ltb (length buf) (5 + n + 2) ≡ false = ground (arith, size) in
      let request : ℕ → Socks5Request Text from_utf8_lossy =
        λ q. record { cmd = cmd; addr = domain (from_utf8_lossy name); port = q } in
      rw (long, v, r, c, cmd_read cmd, t, l, all, sl) (ap (λ q. ok (request q)) p)

  -- For any conversion of bytes to text, a request with one of the three commands, a host name
  -- and a 16-bit port is parsed to that command, the text of the name, and the port.
  pub parse-domain_request :
      (cmd : Socks5Cmd) (name : List ℕ) (port : ℕ)
      → port < 2 ^ 16
      → parse Text from_utf8_lossy (domain_request cmd name port)
        ≡ ok record { cmd = cmd; addr = domain (from_utf8_lossy name); port = port }
  parse-domain_request cmd name port h =
      parse_fields (domain_request cmd name port) name cmd (length name) port
        (omega (arith, length-append name (to_be 2 port))) refl refl refl refl refl
        (ap (λ n. take n (name ++ to_be 2 port)) left
          ∙ take-append (length name) name (to_be 2 port) refl)
        (omega (arith, h, first, at 1))
    where
      left : 5 + length name - 5 ≡ length name
      left = omega arith

      front : List ℕ
      front = 5 ∷ cmd_byte cmd ∷ 0 ∷ 3 ∷ length name ∷ name

      first : get_or (domain_request cmd name port) (5 + length name) 0 ≡ port / 256 % 256
      first = get_or-append front (to_be 2 port) (5 + length name) 0 (omega arith)

      at :
          (k : ℕ)
          → get_or (domain_request cmd name port) (5 + length name + k) 0
            ≡ get_or (to_be 2 port) k 0
      at k = get_or-append front (to_be 2 port) (5 + length name + k) k (omega arith)
