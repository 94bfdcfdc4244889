-- ===== src/TcpClient/Socket.antt =====
-- What Src/Network/TCPClient.cpp uses of `asio::ip::tcp::socket`, and what it relies on.
use rtype_ci_cd.Common.{ℕ, ◌≤◌, ◌≡◌, Bool, true, List, length, take, drop}

-- What a read of `n` bytes came back with: the bytes that it got, which are fewer than `n` where `ok` is false.
pub record Read (S : Type 0) : Type 0 where
  pub bytes : List ℕ
  pub ok : Bool
  pub next : S

-- A stream whose states are `S`.
pub record Socket (S : Type 0) : Type 0 where
  pub available : S → ℕ
  pub read : ℕ → S → Read S
  -- `receive` with `message_peek`: at most the bytes asked for.
  pub peek : ℕ → S → List ℕ
  -- `write`: whether all was sent.
  pub write : List ℕ → S → Bool × S
  pub set_non_blocking : Bool → S → S

-- What the documentation of asio says of bytes that have arrived: `arrived` are those.
pub record Delivers {S : Type 0} (io : Socket S) (arrived : S → List ℕ) : Type 0 where
  pub available_lem : (s : S) → io.available s ≡ length (arrived s)
  pub read_ok : (n : ℕ) (s : S) → n ≤ length (arrived s) → (io.read n s).ok ≡ true
  pub read_bytes :
      (n : ℕ) (s : S) → n ≤ length (arrived s) → (io.read n s).bytes ≡ take n (arrived s)
  pub read_next :
      (n : ℕ) (s : S) → n ≤ length (arrived s) → arrived (io.read n s).next ≡ drop n (arrived s)
  pub peek_lem : (n : ℕ) (s : S) → io.peek n s ≡ take n (arrived s)
  pub mode_lem : (b : Bool) (s : S) → arrived (io.set_non_blocking b s) ≡ arrived s
