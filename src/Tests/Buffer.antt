-- ===== src/Tests/Buffer.antt =====
-- The theorems of Server/Net/Buffer at concrete inputs, and a read that the loop does not survive.
use quan_ly_chuong_ga.Prelude.{refl, [], some, arith, replicate}
use quan_ly_chuong_ga.CString.{Bytes, codes}
use quan_ly_chuong_ga.Server.Net.Buffer.{Loop, done, overrun, unfinished, handle_client_line}
use quan_ly_chuong_ga.Server.Net.Buffer.Ends.{Finished, handle_client_line-Finished}
use quan_ly_chuong_ga.Server.Net.Buffer.Whole.{
  holding, handled, LeavesIn, handle_client_line-joined,
}
use quan_ly_chuong_ga.Tests.Instances.{decimals, values}
use quan_ly_chuong_ga.Tests.Login.{random, server}

abbrev zeros : Bytes
zeros = replicate 40 0

handle_client_line-Finished_example :
    Finished (handle_client_line values random 5 server (holding [] zeros) (codes "AAAA\nB\nCCC"))
handle_client_line-Finished_example =
    handle_client_line-Finished values random 5 server (holding [] zeros) (codes "AAAA\nB\nCCC")

handle_client_line-joined_example :
    LeavesIn
      (codes "CO")
      (handled values random 5 server (some (codes "SCAN")))
      (handle_client_line values random 5 server (holding (codes "SC") zeros) (codes "AN\nCO"))
handle_client_line-joined_example =
    handle_client_line-joined values random 5 server (codes "SC") b'A' (codes "N\nCO") zeros
      (some (codes "SCAN")) (codes "CO") refl (omega arith)
      ((refl, refl), ((refl, refl), ((refl, refl), ((refl, refl), tt))))
      ((refl, refl), ((refl, refl), tt))

abbrev IsOverrun : {D F : Type 0} → Loop D F → Type 0
IsOverrun (done s conn sent) = ⊥
IsOverrun (overrun s sent) = Unit
IsOverrun unfinished = ⊥

-- Three pieces in one read: bytes of the second line are found behind the rest.
three_in_one_overruns :
    IsOverrun (handle_client_line values random 5 server (holding [] zeros) (codes "AAAA\nB\nCCC"))
unfolding handle_client_line
three_in_one_overruns = tt
