-- ===== src/TcpClient/Samples.antt =====
-- A stream for Src/Network/TCPClient.cpp whose bytes have all arrived.
use rtype_ci_cd.Common.{ℕ, refl, true, List, length, take, drop, leb, arith}
use rtype_ci_cd.TcpClient.Socket.{Socket, Delivers}

-- The state is the bytes that are left; what is written is not kept.
abbrev pub stream : Socket (List ℕ)
stream = record {
  available = length;
  read = λ n s. record { bytes = take n s; ok = leb n (length s); next = drop n s };
  peek = take;
  write = λ bytes s. (true, s);
  set_non_blocking = λ b s. s;
}

pub stream-Delivers : Delivers stream (λ s. s)
stream-Delivers = record {
  available_lem = λ s. refl;
  read_ok = λ n s h. ground (arith, h);
  read_bytes = λ n s h. refl;
  read_next = λ n s h. refl;
  peek_lem = λ n s. refl;
  mode_lem = λ b s. refl;
}
