-- ===== src/Packets/Head.antt =====
-- ExtNet: the readers of packets read the head of a packet through a pointer that nothing sets.
use multithread_libevent_exa.Prelude.{
  ℕ, suc, ◌≡◌, refl, ap, ◌∙◌, arith, false, List, [], Option, none, some, take,
}
use multithread_libevent_exa.MemoryBuff.{MemoryBuff, get_read_buff}
use multithread_libevent_exa.FdBridge.{Run, fault}
use multithread_libevent_exa.Packets.{
  PackDealWith, head_len, append_pack, head_part, tcp_round, after_tcp_round, tcp_buff_round,
  TcpResult, tcp_read_data, finish_round, finish_parse, after_finish, ◌>>=◌,
}

head_len-unset : (k : PackDealWith) → k.head ≡ false → head_len k ≡ none
unfolding head_len
head_len-unset k e = ground arith

append_pack-head :
    (k k' : PackDealWith) (src : List ℕ) → append_pack k src ≡ some k' → k'.head ≡ k.head
unfolding append_pack
append_pack-head k k' src e = ground arith

-- After the copy the head is read.
unset_fault :
    {A : Type 0} (k : PackDealWith) (src : List ℕ) (f : PackDealWith → ℕ → Run A)
    → k.head ≡ false
    → (append_pack k src >>= λ k'. head_len k' >>= f k') ≡ fault
unset_fault {A} k src f e = go (append_pack k src) refl
  where
    go :
        (r : Option PackDealWith)
        → append_pack k src ≡ r
        → (r >>= λ k'. head_len k' >>= f k') ≡ fault
    go none q = refl
    go (some k') q = rw (head_len-unset k' (append_pack-head k k' src q ∙ e), ◌>>=◌) refl

tcp_round-unset :
    (k : PackDealWith) (src : List ℕ) (len : ℕ) → k.head ≡ false → tcp_round k src len ≡ fault
unfolding tcp_round
tcp_round-unset k src len e = unset_fault k (take (head_part k len) src) _ e

finish_round-unset :
    (k : PackDealWith) (src : List ℕ) (size n : ℕ)
    → k.head ≡ false
    → finish_round k src size n ≡ fault
unfolding finish_round
finish_round-unset k src size n e = unset_fault k (take (head_part k size) src) _ e

tcp_buff_round-unset :
    (go : MemoryBuff → PackDealWith → TcpResult) (b : MemoryBuff) (k : PackDealWith)
    → k.head ≡ false
    → (r : Option (Option (List ℕ × ℕ))) → tcp_buff_round go b k r ≡ fault
unfolding tcp_buff_round after_tcp_round
tcp_buff_round-unset go b k e none = refl
tcp_buff_round-unset go b k e (some none) = ap (after_tcp_round go b 0) (tcp_round-unset k [] 0 e)
tcp_buff_round-unset go b k e (some (some (m, len))) =
    ap (after_tcp_round go b len) (tcp_round-unset k m len e)

-- readData of TcpStickyWrap, on a pack whose `_head` is not set, and on fuel for at least one round,
-- ends in an access that has no defined behaviour, whatever the buffer holds.
pub tcp_read_data_fault :
    (fuel : ℕ) (b : MemoryBuff) (k : PackDealWith)
    → k.head ≡ false
    → tcp_read_data (suc fuel) b k ≡ fault
unfolding tcp_read_data
tcp_read_data_fault fuel b k e = tcp_buff_round-unset (tcp_read_data fuel) b k e (get_read_buff b)

pub finish_parse_fault :
    (fuel : ℕ) (k : PackDealWith) (src : List ℕ) (size n : ℕ)
    → k.head ≡ false
    → finish_parse (suc fuel) k src size n ≡ fault
unfolding finish_parse after_finish
finish_parse_fault fuel k src size n e =
    ap (after_finish (finish_parse fuel) src size) (finish_round-unset k src size n e)
