-- ===== src/Pool/Eligible/Setting.antt =====
-- What `setMemberEligible` does to both indexes and to the version that ranks are cached under.
use proxyfleet.Base.{ℕ, ◌≡◌, ◌==◌, ◌&&◌, ◌>>=◌, Bool, true, false, some, refl, arith}
use proxyfleet.Pool.Eligible.{
  MemberSet, add, contains, Served, EligiblePool, put, bump, set_member_eligible,
}
use proxyfleet.Pool.Eligible.Index.{IsValid, add-IsValid, contains-add, remove-Removed}

-- A set after `put`.
pub record Holding (wanted : Bool) (k : ℕ) (s : MemberSet) : Type 0 where
  pub result : MemberSet
  pub answer : put wanted k s ≡ some result
  pub valid : IsValid result
  pub itself : contains k result ≡ wanted
  pub others : (m : ℕ) → (k == m) ≡ false → contains m result ≡ contains m s

put-Holding : (wanted : Bool) (k : ℕ) (s : MemberSet) → IsValid s → Holding wanted k s
put-Holding true k s v = record {
  result = add k s;
  answer = refl;
  valid = add-IsValid k s v;
  itself = ground (arith, contains-add k k s);
  others = λ m h. ground (arith, contains-add k m s, h);
}
put-Holding false k s v =
    let gone = remove-Removed k s v in
    record {
      result = gone.rest;
      answer = gone.answer;
      valid = gone.valid;
      itself = ground (arith, gone.others k);
      others = λ m h. ground (arith, gone.others m, h);
    }

pub record Set (n : Served) (eligible : Bool) (p : EligiblePool) : Type 0 where
  pub tcp : Holding (eligible && n.tcp) n.member p.eligible_tcp
  pub udp : Holding (eligible && n.udp) n.member p.eligible_udp
  pub answer :
      set_member_eligible n eligible p
      ≡ some (record {
        closed = false;
        eligible_tcp = tcp.result;
        eligible_udp = udp.result;
        eligible_version =
            bump (contains n.member p.eligible_tcp) (eligible && n.tcp) p.eligible_version;
      })

-- Making a member eligible or not, in a pool that is open and whose two indexes are well formed,
-- never panics and leaves both well formed: the member is then in the TCP index exactly if it is
-- to be eligible and serves TCP, likewise for UDP, no other member moves in or out, and the version
-- is counted up exactly if the member's place in the TCP index changes.
pub set_member_eligible-Set :
    (n : Served) (eligible : Bool) (p : EligiblePool)
    → p.closed ≡ false
    → IsValid p.eligible_tcp
    → IsValid p.eligible_udp
    → Set n eligible p
unfolding set_member_eligible
set_member_eligible-Set n eligible p still_open v w =
    let tcp = put-Holding (eligible && n.tcp) n.member p.eligible_tcp v in
    let udp = put-Holding (eligible && n.udp) n.member p.eligible_udp w in
    record {
      tcp = tcp;
      udp = udp;
      answer = rw (set_member_eligible, still_open, tcp.answer, udp.answer, ◌>>=◌, tcp.itself) refl;
    }
