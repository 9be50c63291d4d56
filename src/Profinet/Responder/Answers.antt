-- ===== src/Profinet/Responder/Answers.antt =====
-- internal/profinet/dcp_responder.go: Set requests, described by what each of their blocks asks for.
use tentacle_next.Prelude.{
  ℕ, ◌%◌, ltb→lt, ◌≡◌, refl, ap, ◌∙◌, true, false, not, ◌&&◌, Option, none, some, List, [], ◌∷◌,
  ◌++◌, ltb, ◌==◌, if◌then◌else◌, length, drop, get_or, map, append-nil, append_assoc, arith,
  Bool-cases, inl, inr,
}
use tentacle_next.Prelude.Bytes.{Bytes}
use tentacle_next.Profinet.Dcp.{
  DcpBlock, DcpFrame, ip, ipv4_zero, is_zero_ip, control_response_block, parse_ip_suite_block,
  is_option,
}
use tentacle_next.Profinet.Responder.{
  Responder, IpChange, answer, Setting, set_ip_suite, name_in, set_block, set_blocks, handle_set,
}

abbrev pub or_else {ℓ} : {A : Type ℓ} → Option A → Option A → Option A
or_else none other = other
or_else (some a) other = some a

-- The last of the blocks that ask for something, if there is one.
abbrev pub latest {ℓ} : {A : Type ℓ} → (DcpBlock → Option A) → List DcpBlock → Option A
latest f [] = none
latest f (b ∷ bs) = or_else (latest f bs) (f b)

-- The station name that a block sets: what follows its qualifier.
abbrev pub asked_name : DcpBlock → Option Bytes
asked_name b = if is_option 0x02 0x02 b then some (name_in b.payload) else none

-- An IP suite's bytes: the qualifier, whose last bit makes the change permanent, and three addresses.
abbrev pub ip_suite : Bytes → Option IpChange
ip_suite (p ∷ q ∷ a ∷ b ∷ c ∷ d ∷ e ∷ f ∷ g ∷ h ∷ i ∷ j ∷ k ∷ l ∷ rest) = some (record {
  address = ip a b c d;
  mask = ip e f g h;
  gateway = ip i j k l;
  permanent = q % 2 == 1;
})
ip_suite _ = none

-- The addresses that a block sets; DHCP clears them.
abbrev pub asked_ip : DcpBlock → Option IpChange
asked_ip b =
    if is_option 0x01 0x02 b
    then ip_suite b.payload
    else if is_option 0x02 0x02 b
    then none
    else if b.option == 0x03
    then some
        (record { address = ipv4_zero; mask = ipv4_zero; gateway = ipv4_zero; permanent = true })
    else none

-- The result code: done, an IP suite that is too short, or an option that cannot be set.
abbrev pub code : DcpBlock → ℕ
code b =
    if is_option 0x01 0x02 b
    then (if ltb (length b.payload) 14 then 0x03 else 0x00)
    else if is_option 0x02 0x02 b
    then 0x00
    else if b.option == 0x03
    then 0x00
    else 0x02

abbrev pub reply : DcpBlock → DcpBlock
reply b = control_response_block b.option b.sub_option (code b)

-- Fourteen bytes are an IP suite, with what the code reads from them.
abbrev IsSuite : Bytes → Type 0
IsSuite bytes =
    (c : IpChange) × (ip_suite bytes ≡ some c)
    × (parse_ip_suite_block (drop 2 bytes) ≡ some (c.address, c.mask, c.gateway))
    × ((get_or bytes 1 0 % 2 == 1) ≡ c.permanent)

long-IsSuite : (bytes : Bytes) → ltb (length bytes) 14 ≡ false → IsSuite bytes
unfolding parse_ip_suite_block
long-IsSuite (p ∷ q ∷ a ∷ b ∷ c ∷ d ∷ e ∷ f ∷ g ∷ h ∷ i ∷ j ∷ k ∷ l ∷ rest) n = (
  record { address = ip a b c d; mask = ip e f g h; gateway = ip i j k l; permanent = q % 2 == 1 },
  refl,
  refl,
  refl,
)
long-IsSuite _ n = cc

short-ip_suite : (bytes : Bytes) → ltb (length bytes) 14 ≡ true → ip_suite bytes ≡ none
short-ip_suite (p ∷ q ∷ a ∷ b ∷ c ∷ d ∷ e ∷ f ∷ g ∷ h ∷ i ∷ j ∷ k ∷ l ∷ rest) n = absurd (
    omega
      (arith, ltb→lt (length (p ∷ q ∷ a ∷ b ∷ c ∷ d ∷ e ∷ f ∷ g ∷ h ∷ i ∷ j ∷ k ∷ l ∷ rest)) 14 n))
short-ip_suite _ n = refl

abbrev pub named : Option Bytes → Responder → Responder
named none r = r
named (some name) r = record r { station_name = name }

abbrev pub addressed : Option IpChange → Responder → Responder
addressed none r = r
addressed (some c) r = record r {
  address = c.address;
  mask = c.mask;
  gateway = c.gateway;
  ip_set = not (is_zero_ip c.address);
}

abbrev pub add : Option Bytes → List Bytes → List Bytes
add none names = names
add (some name) names = name ∷ names

abbrev pub asked_names : List DcpBlock → List Bytes
asked_names [] = []
asked_names (b ∷ bs) = add (asked_name b) (asked_names bs)

-- The loop's variables after blocks that ask for this name, these names and these addresses.
abbrev after : Option Bytes → List Bytes → Option IpChange → List DcpBlock → Setting → Setting
after name names change replies s = record {
  device = addressed change (named name s.device);
  responses = s.responses ++ replies;
  names = s.names ++ names;
  deferred = or_else change s.deferred;
}

not_name : (o s : ℕ) → (o == 1 && s == 2) ≡ true → (o == 2 && s == 2) ≡ false
not_name o s h = ground arith

set_block-after :
    (b : DcpBlock) (s : Setting)
    → set_block b s ≡ after (asked_name b) (add (asked_name b) []) (asked_ip b) (reply b ∷ []) s
unfolding set_block
set_block-after b s = elim (Bool-cases (is_option 0x01 0x02 b)) [
  | inl e ↦
      let f : is_option 0x02 0x02 b ≡ false = not_name b.option b.sub_option e in
      elim (Bool-cases (ltb (length b.payload) 14)) [
        | inl n ↦ rw (e, f, n, short-ip_suite b.payload n, append-nil) refl
        | inr n ↦
            let (c, found, parsed, permanent) = long-IsSuite b.payload n in
            rw (e, f, n, found, parsed, set_ip_suite, permanent, append-nil) refl
      ]
  | inr e ↦ elim (Bool-cases (is_option 0x02 0x02 b)) [
    | inl f ↦ rw (e, f) refl
    | inr f ↦ elim (Bool-cases (b.option == 0x03)) [
      | inl g ↦ rw (e, f, g, append-nil) refl
      | inr g ↦ rw (e, f, g, append-nil) refl
    ]
  ]
]

-- A later change of the device covers an earlier one.
addressed-named :
    (d : Option IpChange) (y : Option Bytes) (c : Option IpChange) (x : Option Bytes)
    (r : Responder)
    → addressed d (named y (addressed c (named x r)))
      ≡ addressed (or_else d c) (named (or_else y x) r)
addressed-named none none none none r = refl
addressed-named none none none (some x) r = refl
addressed-named none none (some c) none r = refl
addressed-named none none (some c) (some x) r = refl
addressed-named none (some y) none none r = refl
addressed-named none (some y) none (some x) r = refl
addressed-named none (some y) (some c) none r = refl
addressed-named none (some y) (some c) (some x) r = refl
addressed-named (some d) none none none r = refl
addressed-named (some d) none none (some x) r = refl
addressed-named (some d) none (some c) none r = refl
addressed-named (some d) none (some c) (some x) r = refl
addressed-named (some d) (some y) none none r = refl
addressed-named (some d) (some y) none (some x) r = refl
addressed-named (some d) (some y) (some c) none r = refl
addressed-named (some d) (some y) (some c) (some x) r = refl

or_else_assoc : {A : Type 0} (d c e : Option A) → or_else d (or_else c e) ≡ or_else (or_else d c) e
or_else_assoc none c e = refl
or_else_assoc (some d) c e = refl

or_else-none : {A : Type 0} (d : Option A) → or_else d none ≡ d
or_else-none none = refl
or_else-none (some d) = refl

-- One block after another asks for what the later one asks for, or else the earlier.
after-after :
    (x y : Option Bytes) (xs ys : List Bytes) (c d : Option IpChange) (bs cs : List DcpBlock)
    (s : Setting)
    → after y ys d cs (after x xs c bs s)
      ≡ after (or_else y x) (xs ++ ys) (or_else d c) (bs ++ cs) s
after-after x y xs ys c d bs cs s =
    rw
      (
        append_assoc s.responses bs cs,
        append_assoc s.names xs ys,
        addressed-named d y c x s.device,
        or_else_assoc d c s.deferred,
      )
      refl

add-append : (x : Option Bytes) (xs : List Bytes) → add x [] ++ xs ≡ add x xs
add-append none xs = refl
add-append (some x) xs = refl

set_blocks-after :
    (bs : List DcpBlock) (s : Setting)
    → set_blocks bs s
      ≡ after (latest asked_name bs) (asked_names bs) (latest asked_ip bs) (map reply bs) s
unfolding set_blocks
set_blocks-after [] s = rw (append-nil s.responses, append-nil s.names) refl
set_blocks-after (b ∷ bs) s =
    set_blocks-after bs (set_block b s)
    ∙ ap (after (latest asked_name bs) (asked_names bs) (latest asked_ip bs) (map reply bs))
        (set_block-after b s)
    ∙ after-after (asked_name b) (latest asked_name bs) (add (asked_name b) []) (asked_names bs)
        (asked_ip b) (latest asked_ip bs) (reply b ∷ []) (map reply bs) s
    ∙ ap
        (λ (names : List Bytes).
          after (latest asked_name (b ∷ bs)) names (latest asked_ip (b ∷ bs)) (map reply (b ∷ bs))
            s)
        (add-append (asked_name b) (asked_names bs))

-- A Set request is answered with one control block for each of its blocks, in order, whose code says
-- whether that block was carried out, whatever the device was configured with. Afterwards the device has
-- the last name and the last addresses asked for and is else unchanged; each name was reported in its
-- turn, and the last change of addresses is the one that is applied.
pub handle_set-Answers :
    (req : DcpFrame) (r : Responder)
    → handle_set req r ≡ record {
      device = addressed (latest asked_ip req.blocks) (named (latest asked_name req.blocks) r);
      response = some (answer 0xfefd 0x04 req (map reply req.blocks));
      names = asked_names req.blocks;
      ip_change = latest asked_ip req.blocks;
    }
unfolding handle_set
handle_set-Answers req r =
    rw (set_blocks-after req.blocks, or_else-none (latest asked_ip req.blocks)) refl
