-- ===== src/Admin/Accounts/Joining.antt =====
-- What an addition leaves in store and pool.
use mirasim2api.Pool.Sticky.{Pool}
use mirasim2api.Store.Database.{Database}
