-- ===== src/Launcher/Clients.antt =====
-- The server's list of clients: addNewClient of luncher/server/inc/ServerUtils.hpp, and send_client_ip
-- of luncher/server/src/Server.cpp.
use cezfuzzer.Base.{
  c_string, NoZero, ℕ, ◌≡◌, ◌≤◌, ◌+◌, ◌-◌, refl, sym, ap, ◌∙◌, ℤ, pos, minus_one, eq_ℤ, eq_ℤ_iff,
  Bool, true, false, List, [], ◌∷◌, ◌++◌, Option, none, some, if◌then◌else◌, length, length-append,
  length-replicate, length-take, ◌⊎◌, inl, inr, zero, suc, take, drop, length-drop, replicate,
  arith, take-append_ge, take_prefix,
}

-- client_ip has 64 bytes.
pub record ClientInfo : Type 0 where
  pub sockfd : ℤ
  pub client_ip : List ℕ
  pub client_port : ℕ

-- The first n bytes that strncpy(dst, text, n) writes: the text, cut or filled with zeros.
unfoldable pub strncpy_front : List ℕ → ℕ → List ℕ
strncpy_front text n = take n (text ++ replicate n 0)

-- strncpy(dst, text, n)
abbrev pub strncpy : List ℕ → List ℕ → ℕ → List ℕ
strncpy dst text n = strncpy_front text n ++ drop n dst

-- `dst[i] = '\0'`, for the byte behind the first `n`.
abbrev pub end_text : ℕ → List ℕ → List ℕ
end_text n dst = take n dst ++ 0 ∷ drop (n + 1) dst

-- `granted` is the success of realloc(), and `junk` the 64 bytes that it gave for the address.
unfoldable pub add_new_client :
    Bool → List ℕ → ℤ → List ℕ → ℕ → List ClientInfo → List ClientInfo × ℤ
add_new_client granted junk sockfd ip port list =
    if granted
    then (
      list
          ++ record {
            sockfd = sockfd;
            client_ip = end_text 15 (strncpy junk ip 15);
            client_port = port;
          }
            ∷ [],
      pos 0,
    )
    else (list, minus_one)

-- The loop of send_client_ip. Without a client `ci` stays unset, and reading it is undefined: none.
unfoldable pub send_client_ip : ℤ → List ClientInfo → Option (List ℕ)
send_client_ip sockfd [] = none
send_client_ip sockfd (ci ∷ list) =
    let rest = send_client_ip sockfd list in
    if eq_ℤ ci.sockfd sockfd then some ci.client_ip else rest

send_client_ip_last :
    (sockfd : ℤ) (ci : ClientInfo) (list : List ClientInfo)
    → send_client_ip sockfd list ≡ none
    → ci.sockfd ≡ sockfd
    → send_client_ip sockfd (list ++ ci ∷ []) ≡ some ci.client_ip
unfolding send_client_ip
send_client_ip_last sockfd ci [] h e = rw ((eq_ℤ_iff ci.sockfd sockfd).1 e) refl
send_client_ip_last sockfd ci (x ∷ xs) h e = ground (arith, send_client_ip_last sockfd ci xs)

take-replicate : (m n : ℕ) → m ≤ n → take {A = ℕ} m (replicate n 0) ≡ replicate m 0
take-replicate zero n h = refl
take-replicate (suc m) zero h = absurd (omega arith)
take-replicate (suc m) (suc n) h = ap (λ t. 0 ∷ t) (take-replicate m n (omega arith))

strncpy_front_short :
    (text : List ℕ) (n : ℕ)
    → length text ≤ n
    → strncpy_front text n ≡ text ++ replicate (n - length text) 0
unfolding strncpy_front
strncpy_front_short text n h =
    take-append_ge n text (replicate n 0) h
    ∙ ap (λ t. text ++ t) (take-replicate (n - length text) n (omega arith))

length-strncpy_front : (text : List ℕ) (n : ℕ) → length (strncpy_front text n) ≡ n
unfolding strncpy_front
length-strncpy_front text n = omega (
  arith,
  length-take n (text ++ replicate n 0),
  length-append text (replicate n 0),
  length-replicate {A = ℕ} n 0,
)

c_string-zeros_end :
    (text rest : List ℕ) (k : ℕ)
    → NoZero text
    → c_string ((text ++ replicate k 0) ++ 0 ∷ rest) ≡ text
unfolding c_string
c_string-zeros_end [] rest zero h = refl
c_string-zeros_end [] rest (suc k) h = refl
c_string-zeros_end (x ∷ xs) rest k h = ground (arith, c_string-zeros_end xs rest k)

end_text_front : (front rest : List ℕ) (n : ℕ) → length front ≡ n → take n (front ++ rest) ≡ front
end_text_front front rest n e = rw (sym e) (take_prefix front rest)

-- The text in the field of the new client is its address, if that has at most 15 bytes.
client_ip_text :
    (junk ip : List ℕ)
    → NoZero ip
    → length ip ≤ 15
    → c_string (end_text 15 (strncpy junk ip 15)) ≡ ip
client_ip_text junk ip h short =
    rw
      (
        end_text_front (strncpy_front ip 15) (drop 15 junk) 15 (length-strncpy_front ip 15),
        strncpy_front_short ip 15 short,
      )
      (c_string-zeros_end ip _ (15 - length ip) h)

client_ip_size :
    (junk ip : List ℕ) → length junk ≡ 64 → length (end_text 15 (strncpy junk ip 15)) ≡ 64
client_ip_size junk ip e =
    let all : List ℕ = strncpy junk ip 15 in
    let size : length all ≡ 64 = omega (
      arith,
      length-append (strncpy_front ip 15) (drop 15 junk),
      length-strncpy_front ip 15,
      length-drop 15 junk,
    ) in
    omega
      (arith, length-append (take 15 all) (0 ∷ drop 16 all), length-take 15 all, length-drop 16 all)

-- For a descriptor that no client of the list has, and an address of at most 15 bytes, none of
-- them 0: if realloc() grants the memory to addNewClient, then what send_client_ip sends to the
-- new client are 64 bytes whose text is the address; if it does not, send_client_ip reads a
-- pointer that is not set.
pub send_client_ip-add_new_client :
    (granted : Bool) (junk ip : List ℕ) (sockfd : ℤ) (port : ℕ) (list : List ClientInfo)
    → send_client_ip sockfd list ≡ none
    → length junk ≡ 64
    → NoZero ip
    → length ip ≤ 15
    → ((granted ≡ true)
        × ((bytes : List ℕ) × (send_client_ip sockfd
                (add_new_client granted junk sockfd ip port list).0
              ≡ some bytes)
            × (length bytes ≡ 64)
            × (c_string bytes ≡ ip)))
      ⊎ ((granted ≡ false)
          × (send_client_ip sockfd (add_new_client granted junk sockfd ip port list).0 ≡ none))
unfolding add_new_client
send_client_ip-add_new_client true junk ip sockfd port list new size h short = inl (
  refl,
  (
    end_text 15 (strncpy junk ip 15),
    send_client_ip_last sockfd
        (record {
          sockfd = sockfd;
          client_ip = end_text 15 (strncpy junk ip 15);
          client_port = port;
        })
        list new refl,
    client_ip_size junk ip size,
    client_ip_text junk ip h short,
  ),
)
send_client_ip-add_new_client false junk ip sockfd port list new size h short = inr (refl, new)
