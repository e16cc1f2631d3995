-- ===== src/Cache/Keys.antt =====
-- The keys under which cache.go and client.go store values.
use quotacontrol.Prelude.{ℕ, ◌++◌, Option, none, some}
use quotacontrol.Prelude.Text.{Text, codes, decimal}
use quotacontrol.Time.{Time, format_date}
use quotacontrol.Proto.Types.{Service, Cycle}
use quotacontrol.Proto.Service.{get_name}
use quotacontrol.Proto.Cycles.{get_start, get_end}

abbrev pub cache_version : Text
cache_version = codes "v2"

unfoldable pub usage_key : Text → Text
usage_key key = codes "usage:" ++ key

unfoldable pub quota_key : Text → Text
quota_key key = codes "quota:" ++ (cache_version ++ (codes ":" ++ key))

unfoldable pub permission_key : ℕ → Text → Text
permission_key project_id user_id =
    codes "perm:"
    ++ (cache_version ++ (codes ":project:" ++ (decimal project_id ++ (codes ":user:" ++ user_id))))

unfoldable pub get_project_key : ℕ → Text
get_project_key project_id = codes "project:" ++ decimal project_id

-- `cacheKeyQuota` of client.go.
unfoldable pub cache_key_quota : ℕ → Option Cycle → Option Service → Time → Text
cache_key_quota project_id cycle none now =
    codes "project:"
    ++ (decimal project_id
        ++ (codes ":"
            ++ (format_date (get_start cycle now)
                ++ (codes ":" ++ format_date (get_end cycle now)))))
cache_key_quota project_id cycle (some service) now =
    codes "project:"
    ++ (decimal project_id
        ++ (codes ":"
            ++ (get_name service
                ++ (codes ":"
                    ++ (format_date (get_start cycle now)
                        ++ (codes ":" ++ format_date (get_end cycle now)))))))
