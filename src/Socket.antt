-- ===== src/Socket.antt =====
-- libevent/socket_base.h and socket_base.cpp: SocketBaseOpt::initSockaddr, for local sockets and
-- for the internet.
use y_rpc.Common.{
  ℕ, ◌+◌, ◌%◌, ◌^◌, ◌&&◌, List, [], ◌∷◌, length, take, leb, ltb, ◌==◌, Option, none, some, ℤ, pos,
  negsuc, Run, done, fault, bytes_of, string_eq, if◌then◌else◌,
}

-- The bytes of a C string: up to the first NUL
abbrev pub c_string : List ℕ → List ℕ
c_string [] = []
c_string (c ∷ cs) = if c == 0 then [] else c ∷ c_string cs

-- `sun_path` without its NUL bytes
pub record SockaddrUn : Type 0 where
  pub sun_path : List ℕ

-- The port as the network reads it, and the address as inet_aton gives it
pub record SockaddrIn : Type 0 where
  pub sin_port : ℕ
  pub s_addr : ℕ

-- `room` is the size of `sun_path`. strcpy does not look at it; no path leaves the address alone.
unfoldable pub init_sockaddr_un : ℕ → Option (List ℕ) → SockaddrUn → Run (ℤ × SockaddrUn)
init_sockaddr_un room none s = done (negsuc 0, s)
init_sockaddr_un room (some path) s =
    if ltb (length (c_string path)) room
    then done (pos 0, record { sun_path = c_string path })
    else fault

abbrev lower_case : List ℕ → List ℕ
lower_case [] = []
lower_case (c ∷ cs) = (if leb 65 c && leb c 90 then c + 32 else c) ∷ lower_case cs

abbrev inaddr_any : ℕ
inaddr_any = 0

-- `inet_aton` is the function of the C library: the address, or none for its result 0.
unfoldable pub init_sockaddr_in :
    (List ℕ → Option ℕ) → Option (List ℕ) → ℕ → SockaddrIn → ℤ × SockaddrIn
unfolding string_eq
init_sockaddr_in inet_aton none port s = (negsuc 0, s)
init_sockaddr_in inet_aton (some ip) port s =
    if string_eq (take 10 (lower_case ip)) (lower_case (bytes_of "INADDR_ANY"))
    then (pos 0, record { sin_port = port % 2 ^ 16; s_addr = inaddr_any })
    else (elim (inet_aton ip) [
      | none ↦ (negsuc 0, record { sin_port = port % 2 ^ 16; s_addr = 0 })
      | some address ↦ (pos 0, record { sin_port = port % 2 ^ 16; s_addr = address })
    ])
