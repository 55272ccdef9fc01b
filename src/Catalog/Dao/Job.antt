-- ===== src/Catalog/Dao/Job.antt =====
-- CreateBulkUploadJob, UpdateBulkUploadJob and GetBulkUploadJobByID of
-- catalog/productdao/postgres.go.
use wesko_go_backend.Common.{ℕ, [], ◌==◌, if◌then◌else◌}
use wesko_go_backend.Common.Exec.{pure, raise, ◌>>=◌}
use wesko_go_backend.Catalog.Errors.{job_not_found}
use wesko_go_backend.Catalog.Models.{BulkUploadJob}
use wesko_go_backend.Catalog.Ports.{Call}
use wesko_go_backend.Catalog.Dao.Rows.{to_bulk_upload_job_model, to_bulk_upload_job_domain}
use wesko_go_backend.Common.Gorm.{rescue}
use wesko_go_backend.Catalog.Dao.Tables.{raw, Db, read_clock}
use wesko_go_backend.Catalog.Dao.Category.{on_missing}

module _ {S : Type 0} (db : Db S) where
  unfoldable pub create_bulk_upload_job : BulkUploadJob → Call S BulkUploadJob
  create_bulk_upload_job job = do
    model ← rescue raw (db.jobs.create (to_bulk_upload_job_model job))
    pure (to_bulk_upload_job_domain model)

  unfoldable pub get_bulk_upload_job_by_id : ℕ → Call S BulkUploadJob
  unfolding on_missing
  get_bulk_upload_job_by_id id = do
    model ← rescue (on_missing job_not_found) (db.jobs.first [] id)
    pure (to_bulk_upload_job_domain model)

  unfoldable pub update_bulk_upload_job : BulkUploadJob → Call S BulkUploadJob
  unfolding get_bulk_upload_job_by_id
  update_bulk_upload_job job =
      let model = to_bulk_upload_job_model job in
      do
        now ← read_clock db
        rows ← rescue raw (
            db.jobs.updates job.id λ row. record row {
              status = model.status;
              total_rows = model.total_rows;
              success_rows = model.success_rows;
              failed_rows = model.failed_rows;
              error_report_url = model.error_report_url;
              updated_at = now;
            })
        if rows == 0 then raise job_not_found else get_bulk_upload_job_by_id job.id
