-- ===== src/Gateway/Log.antt =====
-- BBB/CGI/Scon.c: the record that `main` adds to the data file, and requests one after the other.
-- The description is copied as the string that it is.
pub mod Statistics
use pcon_tng.Prelude.{ℕ, ℤ, List, [], ◌∷◌, ◌++◌, Option, Bool, if◌then◌else◌}
use pcon_tng.Float.{CFloat}
use pcon_tng.TypeDefs.{IpcDat}
use pcon_tng.Gateway.Main.{
  Decimal, Outcome, incomplete, refused, crashed, hung, overrun, stored, gateway,
}

-- `_SEN_DAT_REC`
pub record SenDatRec (F : Type 0) : Type 0 where
  pub sensor_id : ℤ
  pub temp : F
  pub humidity : F
  pub ts : ℕ
  pub description : List ℕ

module _ {F : Type 0} where
  -- `buffer`, from the record in shared memory.
  abbrev pub logged : ℤ → IpcDat F → SenDatRec F
  logged l_num ipc =
      let s = ipc.s_dat l_num in
      record {
        ts = s.ts;
        sensor_id = s.sensor_id;
        temp = s.temp;
        humidity = s.humidity;
        description = s.description;
      }

-- A request: the time, the query string, and whether `fwrite` succeeds.
pub record Request : Type 0 where
  pub now : ℕ
  pub query : Option (List ℕ)
  pub written : Bool

-- Shared memory and the data file, which is opened to append.
pub record Site (F : Type 0) : Type 0 where
  pub ipc : IpcDat F
  pub cgi_data : List (SenDatRec F)

module _ {F : Type 0} where
  -- What a request leaves. One that does not get to the lock changes nothing; what one leaves that
  -- writes outside the array of sensors is not modelled, and stands here as nothing changed.
  abbrev pub left_by : Bool → Site F → Outcome F → Site F
  left_by written s incomplete = s
  left_by written s refused = s
  left_by written s crashed = s
  left_by written s hung = s
  left_by written s overrun = s
  left_by written s (stored l_num ipc) = record {
    ipc = ipc;
    cgi_data = if written then s.cgi_data ++ logged l_num ipc ∷ [] else s.cgi_data;
  }

module _ {F : Type 0} ⦃fl : CFloat F⦄ ⦃dec : Decimal F⦄ where
  abbrev pub serve : ℕ → Request → Site F → Site F
  serve beyond q s = left_by q.written s (gateway q.now s.ipc beyond q.query)

  unfoldable pub serve_all : ℕ → List Request → Site F → Site F
  serve_all beyond [] s = s
  serve_all beyond (q ∷ qs) s = serve_all beyond qs (serve beyond q s)
