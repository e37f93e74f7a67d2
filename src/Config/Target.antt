-- ===== src/Config/Target.antt =====
-- src/config/types.hpp: the address of a proxy.
use clew_proxy.Prelude.{ℕ, List}

pub record ProxyTarget : Type 0 where
  pub type : List ℕ
  pub host : List ℕ
  pub port : ℕ
  pub user : List ℕ
  pub password : List ℕ
